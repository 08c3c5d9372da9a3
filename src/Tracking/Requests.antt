-- ===== src/Tracking/Requests.antt =====
-- Invocations of tracking.rs, and what a successful one does to the storage.
use chain_logistics.Base.{
  ℕ, ◌+◌, ◌≡◌, refl, ◌⊎◌, inl, inr, some, String, List, [], ◌∷◌, arith, ◌==◌, str_eq, if◌then◌else◌,
  ◌&&◌, push_back,
}
use chain_logistics.Host.Call.{
  Address, Symbol, Bytes, Ctx, Call, Outcome, ok, err, trap, committed, put, put_at, unwrap_or,
}
use chain_logistics.Validation.{validate_metadata_pure}
use chain_logistics.Tracking.State.{
  TrackingEvent, tracking_event_published, State, get_product_event_ids, get_event_count_by_type,
}
use chain_logistics.Tracking.Handlers.{MainContract, init, tracking_add_event}

-- What an invocation is given.
pub record NewEvent : Type 0 where
  pub by : Address
  pub product : String
  pub kind : Symbol
  pub location : String
  pub data_hash : Bytes
  pub note : String
  pub metadata : List (Symbol × String)

-- The number of events added so far.
abbrev pub last_event : State → ℕ
last_event s = unwrap_or s.event_seq 0

abbrev pub event_of : Ctx → NewEvent → State → TrackingEvent
event_of c x s = record {
  event_id = last_event s + 1;
  product_id = x.product;
  actor = x.by;
  timestamp = c.timestamp;
  event_type = x.kind;
  location = x.location;
  data_hash = x.data_hash;
  note = x.note;
  metadata = x.metadata;
}

abbrev pub added : Ctx → NewEvent → State → State
added c x s =
    let n = last_event s + 1 in
    let count = get_event_count_by_type x.product x.kind s in
    record s {
      event = put n (event_of c x s) s.event;
      event_seq = some n;
      product_event_ids =
          put_at x.product (push_back (get_product_event_ids x.product s) n) s.product_event_ids;
      type_index = λ p t j.
          if str_eq x.product p && (str_eq x.kind t && count == j)
          then some n
          else s.type_index p t j;
      type_count = λ p t.
          if str_eq x.product p && str_eq x.kind t then some (count + 1) else s.type_count p t;
      log = tracking_event_published x.product n (event_of c x s) ∷ s.log;
    }

abbrev pub add : MainContract → Ctx → NewEvent → Call State ℕ
add main c x =
    tracking_add_event main c x.by x.product x.kind x.location x.data_hash x.note x.metadata

add-added :
    (main : MainContract) (c : Ctx) (x : NewEvent) (s : State) {n : ℕ}
    → (add main c x s).0 ≡ ok n
    → ((add main c x s).1 ≡ added c x s) × (n ≡ last_event s + 1)
unfolding tracking_add_event
add-added main c x s h = elim (validate_metadata_pure s x.metadata) [
  | inl e ↦ ground (arith, e)
  | inr (v, e) ↦ absurd (ground (arith, e))
]

pub data Request : Type 0 where
  setup : Address → Request
  add_event : NewEvent → Request

unfoldable pub step : MainContract → Ctx → Request → State → State
step main c (setup a) s = committed (init c a) s
step main c (add_event x) s = committed (add main c x) s

unfoldable pub run : MainContract → List (Ctx × Request) → State → State
run main [] s = s
run main ((c, r) ∷ rs) s = run main rs (step main c r s)

pub init_cases :
    (c : Ctx) (a : Address) (s : State)
    → (committed (init c a) s ≡ s) ⊎ (committed (init c a) s ≡ record s { main_contract = some a })
unfolding init
init_cases c a s = ground arith

pub add_cases :
    (main : MainContract) (c : Ctx) (x : NewEvent) (s : State)
    → (committed (add main c x) s ≡ s) ⊎ (committed (add main c x) s ≡ added c x s)
add_cases main c x s = go (add main c x s).0 refl
  where
    go :
        (r : Outcome ℕ)
        → (add main c x s).0 ≡ r
        → (committed (add main c x) s ≡ s) ⊎ (committed (add main c x) s ≡ added c x s)
    go (ok n) e = inr (ground (arith, e, add-added main c x s e))
    go (err k) e = inl (ground (arith, e))
    go trap e = inl (ground (arith, e))
