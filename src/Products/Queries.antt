-- ===== src/Products/Queries.antt =====
-- The entry points of product_query.rs, which read the registry, and the registry's counters.
use chain_logistics.Base.{ℕ, Bool, true, false, Option, none, some, String}
use chain_logistics.Host.Errors.{Error}
use chain_logistics.Host.Call.{Address, Ctx, Call, ◌>>=◌, ◌>>◌, pure, fail_if, ok_or, gets, modify}
use chain_logistics.Validation.{validate_contract_address, non_empty, max_len, max_product_id_len}
use chain_logistics.Products.State.{Product, World, get_total_products, get_active_products}

pub record ProductStats : Type 0 where
  pub total_products : ℕ
  pub active_products : ℕ

abbrev pub get_stats : World → ProductStats
get_stats w = record {
  total_products = get_total_products w.registry;
  active_products = get_active_products w.registry;
}

-- The registry that the query contract asks, in its own storage.
pub record QueryState : Type 0 where
  pub main_contract : Option Address

unfoldable pub query_init : Ctx → Address → Call QueryState (Unit {0})
query_init c registry_contract = do
  fail_if (elim (← gets λ s. s.main_contract) [ none ↦ false | some _ ↦ true ])
      Error.already_initialized
  validate_contract_address c registry_contract
  modify (λ s. record s { main_contract = some registry_contract })

unfoldable pub query_product : World → String → Call QueryState Product
query_product w product_id = do
  non_empty product_id
  max_len product_id max_product_id_len
  ok_or (← gets λ s. s.main_contract) Error.not_initialized
  ok_or (w.registry.product product_id) Error.product_not_found

unfoldable pub query_stats : World → Call QueryState ProductStats
query_stats w = do ok_or (← gets λ s. s.main_contract) Error.not_initialized; pure (get_stats w)

unfoldable pub query_product_exists : World → String → Call QueryState Bool
query_product_exists w product_id = do
  non_empty product_id
  max_len product_id max_product_id_len
  ok_or (← gets λ s. s.main_contract) Error.not_initialized
  pure (elim (w.registry.product product_id) [ none ↦ false | some _ ↦ true ])
