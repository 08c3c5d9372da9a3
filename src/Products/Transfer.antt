-- ===== src/Products/Transfer.antt =====
-- The entry points of product_transfer.rs, with the loop of a batch.
use chain_logistics.Base.{
  ℕ, zero, suc, ◌+◌, ◌-◌, ◌*◌, ◌/◌, min, Bool, true, false, not, ◌||◌, Option, none, some, String,
  List, ◌∷◌, ltb, leb, ◌==◌, if◌then◌else◌, length, get_elem?,
}
use chain_logistics.Host.Errors.{Error}
use chain_logistics.Host.Call.{
  Address, Ctx, Call, ◌>>=◌, ◌>>◌, pure, fail_if, ok_or, gets, modify, require_auth,
  checked_add_u64, unwrap_or,
}
use chain_logistics.Validation.{
  validate_contract_address, validate_distinct_addresses, non_empty, max_len, max_product_id_len,
}
use chain_logistics.Authorization.Handlers.{update_product_owner}
use chain_logistics.Products.State.{
  Product, product_transferred, World, in_transfer, called, auth_client, must, at_registry, at_auth,
  try_get_product, set_lock,
}
use chain_logistics.Products.Registry.{configure_transfer_contract, transfer_owner}

abbrev pub max_batch_size : ℕ
max_batch_size = 100

abbrev pub recommended_chunk_size : ℕ
recommended_chunk_size = 25

abbrev pub base_cost_units : ℕ
base_cost_units = 15

abbrev pub per_item_cost_units : ℕ
per_item_cost_units = 8

pub record GasPolicy : Type 0 where
  pub max_batch_size : ℕ
  pub recommended_chunk_size : ℕ
  pub base_cost_units : ℕ
  pub per_item_cost_units : ℕ

pub record GasEstimate : Type 0 where
  pub item_count : ℕ
  pub estimated_cost_units : ℕ
  pub recommended_chunk_size : ℕ
  pub recommended_chunk_count : ℕ
  pub fits_single_transaction : Bool

pub record BatchProgress : Type 0 where
  pub requested : ℕ
  pub processed : ℕ
  pub succeeded : ℕ
  pub next_cursor : ℕ
  pub complete : Bool

abbrev pub gas_policy : GasPolicy
gas_policy = record {
  max_batch_size = max_batch_size;
  recommended_chunk_size = recommended_chunk_size;
  base_cost_units = base_cost_units;
  per_item_cost_units = per_item_cost_units;
}

-- `n.div_ceil(d)`
abbrev pub div_ceil : ℕ → ℕ → ℕ
div_ceil n d = (n + (d - 1)) / d

abbrev pub checked_mul_u64 : ℕ → ℕ → Option ℕ
checked_mul_u64 a b = if leb (a * b) 18446744073709551615 then some (a * b) else none

abbrev pub checked_add_u32 : ℕ → ℕ → Option ℕ
checked_add_u32 a b = if leb (a + b) 4294967295 then some (a + b) else none

-- `and_then`
abbrev pub and_then : Option ℕ → (ℕ → Option ℕ) → Option ℕ
and_then o f = elim o [ none ↦ none | some x ↦ f x ]

unfoldable pub estimate_batch : ℕ → GasEstimate
estimate_batch item_count = record {
  item_count = item_count;
  estimated_cost_units =
      unwrap_or
        (and_then (checked_mul_u64 per_item_cost_units item_count)
          (λ x. checked_add_u64 x base_cost_units))
        18446744073709551615;
  recommended_chunk_size = recommended_chunk_size;
  recommended_chunk_count =
      if item_count == 0 then 0 else div_ceil item_count recommended_chunk_size;
  fits_single_transaction = leb item_count max_batch_size;
}

abbrev pub acquire_lock : String → Call World (Unit {0})
acquire_lock scope = do
  fail_if (← gets λ w. w.transfer.locks scope) Error.reentrancy_detected
  modify (in_transfer λ t. record t { locks = set_lock scope true t.locks })

abbrev pub release_lock : String → Call World (Unit {0})
release_lock scope = modify (in_transfer λ t. record t { locks = set_lock scope false t.locks })

abbrev pub publish_transferred : String → Address → Address → Call World (Unit {0})
publish_transferred product_id from to =
    modify (in_transfer λ t. record t { log = product_transferred product_id from to ∷ t.log })

-- The two calls that move a product: first the authorization contract, then the registry.
abbrev pub move_product :
    Ctx → Address → Address → Address → String → Address → Call World (Unit {0})
move_product c main_contract auth_contract owner product_id new_owner = do
  at_auth auth_contract
      (auth_client (update_product_owner (called c auth_contract) owner product_id new_owner))
  at_registry main_contract (
      must
        (transfer_owner (called c main_contract) c.current_contract_address product_id new_owner))
  pure tt

abbrev pub is_movable : Address → Option Product → Bool
is_movable owner found = elim found [
  | none ↦ false
  | some product ↦ not (not (product.owner == owner) || not product.active)
]

-- One round of the loop, with the number of transfers before and after it.
unfoldable pub transfer_item :
    Ctx → Address → Address → Address → Address → String → ℕ → Call World ℕ
transfer_item c main_contract auth_contract owner new_owner product_id count w =
    if is_movable owner (try_get_product main_contract product_id w)
    then (move_product c main_contract auth_contract owner product_id new_owner
          >> publish_transferred product_id owner new_owner
          >> ok_or (checked_add_u32 count 1) Error.arithmetic_overflow)
        w
    else pure count w

-- `for i in cursor..end`
unfoldable pub transfer_loop :
    Ctx → Address → Address → Address → Address → List String → ℕ → ℕ → ℕ → Call World ℕ
transfer_loop c main_contract auth_contract owner new_owner ids i zero count = pure count
transfer_loop c main_contract auth_contract owner new_owner ids i (suc rounds) count =
    let rest = transfer_loop c main_contract auth_contract owner new_owner ids (suc i) rounds in
    elim (get_elem? ids i) [
      | none ↦ rest count
      | some product_id ↦
          transfer_item c main_contract auth_contract owner new_owner product_id count >>= rest
    ]

-- The part of a chunk that follows the checks of its arguments.
unfoldable pub transfer_rounds :
    Ctx → Address → Address → Address → List String → Address → ℕ → ℕ → Call World BatchProgress
transfer_rounds c main_contract auth_contract owner product_ids new_owner cursor chunk_size = do
  sum ← ok_or (checked_add_u32 cursor chunk_size) Error.arithmetic_overflow
  let end = min sum (length product_ids)
  acquire_lock "batch_transfer"
  transferred_count ←
      transfer_loop c main_contract auth_contract owner new_owner product_ids cursor (end - cursor)
        0
  release_lock "batch_transfer"
  pure (record {
    requested = length product_ids;
    processed = end - cursor;
    succeeded = transferred_count;
    next_cursor = end;
    complete = end == length product_ids;
  })

unfoldable pub transfer_batch_chunk :
    Ctx → Address → List String → Address → ℕ → ℕ → Call World BatchProgress
unfolding transfer_rounds
transfer_batch_chunk c owner product_ids new_owner cursor chunk_size = do
  validate_distinct_addresses owner new_owner
  fail_if (length product_ids == 0) Error.empty_batch
  fail_if (ltb max_batch_size (length product_ids)) Error.batch_too_large
  fail_if (chunk_size == 0) Error.invalid_input
  fail_if (ltb max_batch_size chunk_size) Error.batch_too_large
  main_contract ← ok_or (← gets λ w. w.transfer.main_contract) Error.not_initialized
  auth_contract ← ok_or (← gets λ w. w.transfer.auth_contract) Error.not_initialized
  if leb (length product_ids) cursor
      then pure (record {
        requested = length product_ids;
        processed = 0;
        succeeded = 0;
        next_cursor = cursor;
        complete = true;
      })
      else transfer_rounds c main_contract auth_contract owner product_ids new_owner cursor
          chunk_size

unfoldable pub pt_init : Ctx → Address → Address → Call World (Unit {0})
pt_init c main_contract auth_contract = do
  fail_if
      (elim (← gets λ w. w.transfer.auth_contract) [ none ↦ false | some _ ↦ true ]
        || elim (← gets λ w. w.transfer.main_contract) [ none ↦ false | some _ ↦ true ])
      Error.already_initialized
  validate_contract_address c main_contract
  validate_contract_address c auth_contract
  modify (in_transfer λ t. record t { main_contract = some main_contract })
  modify (in_transfer λ t. record t { auth_contract = some auth_contract })
  at_registry main_contract
      (must (configure_transfer_contract (called c main_contract) c.current_contract_address))

abbrev pub find_product : Address → String → Call World Product
find_product main_contract product_id = do
  ok_or (← gets (try_get_product main_contract product_id)) Error.product_not_found

-- The part of a transfer that follows the checks.
unfoldable pub transfer_checked :
    Ctx → Address → Address → Address → String → Address → Call World (Unit {0})
transfer_checked c main_contract auth_contract owner product_id new_owner = do
  acquire_lock "transfer_product"
  move_product c main_contract auth_contract owner product_id new_owner
  release_lock "transfer_product"
  publish_transferred product_id owner new_owner

unfoldable pub transfer_product : Ctx → Address → String → Address → Call World (Unit {0})
transfer_product c owner product_id new_owner = do
  require_auth c owner
  require_auth c new_owner
  validate_distinct_addresses owner new_owner
  non_empty product_id
  max_len product_id max_product_id_len
  main_contract ← ok_or (← gets λ w. w.transfer.main_contract) Error.not_initialized
  auth_contract ← ok_or (← gets λ w. w.transfer.auth_contract) Error.not_initialized
  product ← find_product main_contract product_id
  fail_if (not (product.owner == owner)) Error.unauthorized
  fail_if (not product.active) Error.product_deactivated
  transfer_checked c main_contract auth_contract owner product_id new_owner

unfoldable pub get_product_owner : String → Call World Address
get_product_owner product_id = do
  non_empty product_id
  main_contract ← ok_or (← gets λ w. w.transfer.main_contract) Error.not_initialized
  product ← find_product main_contract product_id
  pure product.owner

unfoldable pub is_product_owner : String → Address → Call World Bool
is_product_owner product_id address = do
  non_empty product_id
  main_contract ← ok_or (← gets λ w. w.transfer.main_contract) Error.not_initialized
  product ← find_product main_contract product_id
  pure (product.owner == address)

unfoldable pub batch_transfer_products : Ctx → Address → List String → Address → Call World ℕ
batch_transfer_products c owner product_ids new_owner = do
  require_auth c owner
  require_auth c new_owner
  progress ← transfer_batch_chunk c owner product_ids new_owner 0 (length product_ids)
  pure progress.succeeded

unfoldable pub batch_transfer_products_chunk :
    Ctx → Address → List String → Address → ℕ → ℕ → Call World BatchProgress
batch_transfer_products_chunk c owner product_ids new_owner cursor chunk_size = do
  require_auth c owner
  require_auth c new_owner
  transfer_batch_chunk c owner product_ids new_owner cursor chunk_size

abbrev pub estimate_batch_transfer : ℕ → GasEstimate
estimate_batch_transfer item_count = estimate_batch item_count

abbrev pub get_batch_transfer_gas_policy : GasPolicy
get_batch_transfer_gas_policy = gas_policy
