-- ===== src/Tracking/Handlers.antt =====
-- The entry points of tracking.rs.
use chain_logistics.Base.{
  ℕ, Bool, true, false, Option, none, some, String, List, ◌∷◌, push_back, length,
}
use chain_logistics.Host.Errors.{Error}
use chain_logistics.Host.Call.{
  Address, Symbol, Bytes, Ctx, Call, ok, trap, ◌>>=◌, ◌>>◌, pure, fail_if, ok_or, gets, modify,
  require_auth,
}
use chain_logistics.Validation.{
  validate_contract_address, non_empty, max_len, max_product_id_len, validate_event_type,
  validate_event_location, validate_event_note, validate_metadata,
}
use chain_logistics.Tracking.State.{
  TrackingEvent, tracking_event_published, State, put_event, get_event, get_product_event_ids,
  put_product_event_ids, next_event_id, get_event_count_by_type, index_event_by_type,
}

-- The main contract's answer to `is_paused`, none if the call fails.
abbrev pub MainContract : Type 0
MainContract = Address → Option Bool

abbrev pub require_init : Call State (Unit {0})
require_init = do
  fail_if (elim (← gets λ s. s.main_contract) [ none ↦ true | some _ ↦ false ])
      Error.not_initialized

abbrev pub query_paused : MainContract → Address → Call State Bool
query_paused main a s = elim (main a) [ none ↦ (trap, s) | some p ↦ (ok p, s) ]

abbrev pub require_not_paused : MainContract → Call State (Unit {0})
require_not_paused main = do
  main_contract ← ok_or (← gets λ s. s.main_contract) Error.not_initialized
  paused ← query_paused main main_contract
  fail_if paused Error.contract_paused

unfoldable pub init : Ctx → Address → Call State (Unit {0})
init c main_contract = do
  fail_if (elim (← gets λ s. s.main_contract) [ none ↦ false | some _ ↦ true ])
      Error.already_initialized
  validate_contract_address c main_contract
  modify (λ s. record s { main_contract = some main_contract })

unfoldable pub tracking_add_event :
    MainContract
    → Ctx
    → Address
    → String
    → Symbol
    → String
    → Bytes
    → String
    → List (Symbol × String)
    → Call State ℕ
unfolding next_event_id index_event_by_type
tracking_add_event main c actor product_id event_type location data_hash note metadata = do
  require_init
  require_not_paused main
  require_auth c actor
  non_empty product_id
  max_len product_id max_product_id_len
  validate_event_type event_type
  validate_event_location location
  validate_event_note note
  validate_metadata metadata
  event_id ← next_event_id
  let event : TrackingEvent = record {
    event_id = event_id;
    product_id = product_id;
    actor = actor;
    timestamp = c.timestamp;
    event_type = event_type;
    location = location;
    data_hash = data_hash;
    note = note;
    metadata = metadata;
  }
  modify (put_event event)
  ids ← gets (get_product_event_ids product_id)
  modify (put_product_event_ids product_id (push_back ids event_id))
  index_event_by_type product_id event_type event_id
  modify (λ s. record s { log = tracking_event_published product_id event_id event ∷ s.log })
  pure event_id

unfoldable pub tracking_get_event : ℕ → Call State TrackingEvent
tracking_get_event event_id = do ok_or (← gets (get_event event_id)) Error.event_not_found

abbrev pub tracking_get_product_event_ids : String → State → List ℕ
tracking_get_product_event_ids product_id s = get_product_event_ids product_id s

abbrev pub tracking_get_event_count : String → State → ℕ
tracking_get_event_count product_id s = length (get_product_event_ids product_id s)

abbrev pub tracking_get_event_count_by_type : String → Symbol → State → ℕ
tracking_get_event_count_by_type product_id event_type s =
    get_event_count_by_type product_id event_type s
