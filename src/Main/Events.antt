-- ===== src/Main/Events.antt =====
-- The tracking entry points of contract.rs.
use chain_logistics.Base.{ℕ, Bool, not, Option, none, some, String, List, ◌∷◌, ltb, push_back}
use chain_logistics.Host.Errors.{Error}
use chain_logistics.Host.Call.{
  Address, Symbol, Bytes, Ctx, Call, ok, trap, ◌>>=◌, ◌>>◌, pure, fail_if, ok_or, gets, modify,
  require_auth, checked_add_u64,
}
use chain_logistics.Validation.{
  non_empty, max_len, max_product_id_len, validate_event_type, validate_event_location,
  validate_event_note, validate_metadata,
}
use chain_logistics.Products.State.{Product}
use chain_logistics.Tracking.State as TrackingStore
use chain_logistics.Tracking.State.{
  TrackingEvent, tracking_event_published, put_event, get_event, put_product_event_ids,
  next_event_id, index_event_by_type,
}
use chain_logistics.Main.State.{State, get_product, on_events}
use chain_logistics.Main.Handlers.{require_not_paused}

-- The answer of the authorization contract at an address to `is_authorized`, none if the call fails.
abbrev pub AuthContract : Type 0
AuthContract = Address → String → Address → Option Bool

abbrev pub max_event_id_page_limit : ℕ
max_event_id_page_limit = 100

abbrev pub read_product : String → Call State Product
read_product product_id = do ok_or (← gets (get_product product_id)) Error.product_not_found

abbrev pub calc_has_more : ℕ → ℕ → ℕ → Call State Bool
calc_has_more offset current_len total_count = do
  consumed ← ok_or (checked_add_u64 offset current_len) Error.arithmetic_overflow
  pure (ltb consumed total_count)

abbrev pub ask_authorized : AuthContract → Address → String → Address → Call State Bool
ask_authorized auth a product_id caller s = elim (auth a product_id caller) [
  | none ↦ (trap, s)
  | some b ↦ (ok b, s)
]

unfoldable pub require_can_add_event :
    AuthContract → Ctx → String → Product → Address → Call State (Unit {0})
require_can_add_event auth c product_id product caller = do
  require_auth c caller
  fail_if (not product.active) Error.product_deactivated
  auth_contract ← ok_or (← gets λ s. s.auth_contract) Error.not_initialized
  authorized ← ask_authorized auth auth_contract product_id caller
  fail_if (not authorized) Error.unauthorized

-- The writes of `add_tracking_event`, from `next_event_id` on.
unfoldable pub store_event :
    Ctx
    → Address
    → String
    → Symbol
    → String
    → Bytes
    → String
    → List (Symbol × String)
    → Call TrackingStore.State ℕ
unfolding next_event_id index_event_by_type
store_event c actor product_id event_type location data_hash note metadata = do
  event_id ← next_event_id
  let event : TrackingEvent = record {
    event_id = event_id;
    product_id = product_id;
    actor = actor;
    timestamp = c.timestamp;
    event_type = event_type;
    location = location;
    data_hash = data_hash;
    note = note;
    metadata = metadata;
  }
  modify (put_event event)
  ids ← gets (TrackingStore.get_product_event_ids product_id)
  modify (put_product_event_ids product_id (push_back ids event_id))
  index_event_by_type product_id event_type event_id
  modify (λ s. record s { log = tracking_event_published product_id event_id event ∷ s.log })
  pure event_id

unfoldable pub add_tracking_event :
    AuthContract
    → Ctx
    → Address
    → String
    → Symbol
    → String
    → Bytes
    → String
    → List (Symbol × String)
    → Call State ℕ
unfolding require_can_add_event
add_tracking_event auth c actor product_id event_type location data_hash note metadata = do
  require_not_paused
  non_empty product_id
  max_len product_id max_product_id_len
  validate_event_type event_type
  product ← read_product product_id
  require_can_add_event auth c product_id product actor
  validate_event_location location
  validate_event_note note
  validate_metadata metadata
  on_events (store_event c actor product_id event_type location data_hash note metadata)
