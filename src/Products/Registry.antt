-- ===== src/Products/Registry.antt =====
-- The entry points of product_registry.rs, with the helpers they share, and of product_query.rs.
use chain_logistics.Base.{
  ℕ, ◌-◌, true, false, not, none, some, String, len, List, [], ◌∷◌, ltb, leb, ◌==◌, if◌then◌else◌,
  length, push_back,
}
use chain_logistics.Host.Errors.{Error}
use chain_logistics.Host.Call.{
  Address, Ctx, Call, ◌>>=◌, ◌>>◌, pure, fail_if, ok_or, gets, modify, require_auth,
  checked_add_u64, put_at,
}
use chain_logistics.Types.{ProductConfig}
use chain_logistics.Validation.{
  validate_product_config, validate_contract_address, validate_distinct_addresses, non_empty,
  validate_deactivation_reason,
}
use chain_logistics.Authorization.Handlers.{init_product_owner}
use chain_logistics.Products.State.{
  Product, product_registered, product_deactivated, product_reactivated, SearchIndex, World,
  in_registry, called, auth_client, at_auth, set_lock, put_product, set_auth, get_search_index,
  has_string, add_to_search_index, remove_from_search_index, get_total_products,
  get_active_products,
}

abbrev pub acquire_lock : String → Call World (Unit {0})
acquire_lock scope = do
  fail_if (← gets λ w. w.registry.locks scope) Error.reentrancy_detected
  modify (in_registry λ r. record r { locks = set_lock scope true r.locks })

abbrev pub release_lock : String → Call World (Unit {0})
release_lock scope = modify (in_registry λ r. record r { locks = set_lock scope false r.locks })

abbrev pub require_transfer_contract : Ctx → Address → Call World (Unit {0})
require_transfer_contract c caller = do
  trusted ← ok_or (← gets λ w. w.registry.transfer_contract) Error.not_initialized
  require_auth c caller
  fail_if (not (caller == trusted)) Error.unauthorized

abbrev pub read_product : String → Call World Product
read_product product_id = do
  ok_or (← gets λ w. w.registry.product product_id) Error.product_not_found

abbrev pub write_product : Product → Call World (Unit {0})
write_product product = modify (in_registry (put_product product))

abbrev pub require_owner : Ctx → Product → Address → Call World (Unit {0})
require_owner c product caller = do
  require_auth c caller
  fail_if (not (product.owner == caller)) Error.unauthorized

-- A name, a place or a category of more than two bytes is a keyword.
unfoldable pub index_word : String → String → SearchIndex → SearchIndex
index_word word product_id index =
    if ltb 2 (len word) then add_to_search_index word product_id index else index

unfoldable pub deindex_word : String → String → SearchIndex → SearchIndex
deindex_word word product_id index =
    if ltb 2 (len word) then remove_from_search_index word product_id index else index

unfoldable pub index_product : Product → SearchIndex → SearchIndex
index_product p index =
    index_word p.category p.id (index_word p.origin.location p.id (index_word p.name p.id index))

unfoldable pub deindex_product : Product → SearchIndex → SearchIndex
deindex_product p index =
    deindex_word p.category p.id
      (deindex_word p.origin.location p.id (deindex_word p.name p.id index))

abbrev pub new_product : Ctx → Address → ProductConfig → Product
new_product c owner config = record {
  id = config.id;
  name = config.name;
  description = config.description;
  origin = record { location = config.origin_location };
  owner = owner;
  created_at = c.timestamp;
  active = true;
  category = config.category;
  tags = config.tags;
  certifications = config.certifications;
  media_hashes = config.media_hashes;
  custom = config.custom;
  deactivation_info = [];
}

-- The part of the registration that follows the validation.
unfoldable pub register_valid : Ctx → Address → ProductConfig → Call World Product
register_valid c owner config = do
  fail_if (elim (← gets λ w. w.registry.product config.id) [ none ↦ false | some _ ↦ true ])
      Error.product_already_exists
  let product = new_product c owner config
  write_product product
  modify (in_registry λ r. record r { product_event_ids = put_at config.id [] r.product_event_ids })
  modify (in_registry (set_auth config.id owner))
  modify (in_registry λ r. record r { search_index = index_product product r.search_index })
  acquire_lock "register_product"
  auth_contract ← ok_or (← gets λ w. w.registry.auth_contract) Error.not_initialized
  at_auth auth_contract (
      auth_client
        (init_product_owner (called c auth_contract) c.current_contract_address config.id owner))
  release_lock "register_product"
  total ←
      ok_or (checked_add_u64 (← gets λ w. get_total_products w.registry) 1)
        Error.arithmetic_overflow
  modify (in_registry λ r. record r { total_products = some total })
  active ←
      ok_or (checked_add_u64 (← gets λ w. get_active_products w.registry) 1)
        Error.arithmetic_overflow
  modify (in_registry λ r. record r { active_products = some active })
  modify (in_registry λ r. record r { log = product_registered config.id product ∷ r.log })
  pure product

unfoldable pub register_product : Ctx → Address → ProductConfig → Call World Product
register_product c owner config = do
  require_auth c owner
  validate_product_config config
  register_valid c owner config

unfoldable pub configure_auth_contract : Ctx → Address → Call World (Unit {0})
configure_auth_contract c auth_contract = do
  validate_contract_address c auth_contract
  configured ← gets (λ w. w.registry.auth_contract)
  fail_if (elim configured [ none ↦ false | some existing ↦ not (existing == auth_contract) ])
      Error.already_initialized
  modify (in_registry λ r. record r { auth_contract = some auth_contract })

unfoldable pub configure_transfer_contract : Ctx → Address → Call World (Unit {0})
configure_transfer_contract c transfer_contract = do
  validate_contract_address c transfer_contract
  configured ← gets (λ w. w.registry.transfer_contract)
  fail_if (elim configured [ none ↦ false | some existing ↦ not (existing == transfer_contract) ])
      Error.already_initialized
  modify (in_registry λ r. record r { transfer_contract = some transfer_contract })

unfoldable pub transfer_owner : Ctx → Address → String → Address → Call World Product
transfer_owner c caller product_id new_owner = do
  require_transfer_contract c caller
  non_empty product_id
  product ← read_product product_id
  fail_if (not product.active) Error.product_deactivated
  validate_distinct_addresses product.owner new_owner
  write_product (record product { owner = new_owner })
  pure (record product { owner = new_owner })

unfoldable pub deactivate_product : Ctx → Address → String → String → Call World (Unit {0})
deactivate_product c owner product_id reason = do
  product ← read_product product_id
  require_owner c product owner
  fail_if (not product.active) Error.product_deactivated
  validate_deactivation_reason reason
  let product' : Product = record product {
    active = false;
    deactivation_info =
        record { reason = reason; deactivated_at = c.timestamp; deactivated_by = owner } ∷ [];
  }
  write_product product'
  modify (in_registry λ r. record r { search_index = deindex_product product' r.search_index })
  active ← gets (λ w. get_active_products w.registry - 1)
  modify (in_registry λ r. record r { active_products = some active })
  modify (in_registry λ r. record r { log = product_deactivated product_id owner reason ∷ r.log })

unfoldable pub reactivate_product : Ctx → Address → String → Call World (Unit {0})
reactivate_product c owner product_id = do
  product ← read_product product_id
  require_owner c product owner
  fail_if product.active Error.product_already_active
  let product' : Product = record product { active = true; deactivation_info = [] }
  write_product product'
  modify (in_registry λ r. record r { search_index = index_product product' r.search_index })
  active ←
      ok_or (checked_add_u64 (← gets λ w. get_active_products w.registry) 1)
        Error.arithmetic_overflow
  modify (in_registry λ r. record r { active_products = some active })
  modify (in_registry λ r. record r { log = product_reactivated product_id owner ∷ r.log })

abbrev pub get_product : String → Call World Product
get_product id = read_product id

-- The search loop: the matches in order, without repetition, up to the limit.
unfoldable pub search_loop : ℕ → List String → List String → List String
search_loop limit results [] = results
search_loop limit results (p ∷ ps) =
    let rest =
      search_loop limit (if has_string results p then results else push_back results p) ps in
    if leb limit (length results) then results else rest

unfoldable pub search_products : String → ℕ → World → List String
search_products query limit w =
    if limit == 0 then [] else search_loop limit [] (get_search_index query w.registry.search_index)
