-- ===== src/Tracking/Tests.antt =====
-- tracking.rs and event_query.rs on concrete inputs.
use chain_logistics.Base.{ℕ, ◌≡◌, refl, inr, true, false, some, List, [], ◌∷◌, arith, str_eq, slice}
use chain_logistics.Host.Call.{Symbol, Ctx, ok}
use chain_logistics.Validation.{validate_metadata, check_values}
use chain_logistics.Tracking.State as TrackingStore
use chain_logistics.Tracking.State.{
  TrackingEvent, empty, next_event_id, index_event_by_type, get_event_ids_by_type, read_index,
  get_product_event_ids,
}
use chain_logistics.Tracking.Handlers.{MainContract, init, tracking_add_event}
use chain_logistics.Tracking.Requests.{NewEvent, Request, setup, add_event, step, run}
use chain_logistics.Tracking.Growth.{TrackingInv}
use chain_logistics.Tracking.Invariant.{step-TrackingInv, run-TrackingInv, empty-TrackingInv}
use chain_logistics.Tracking.History.{history, has_kind}
use chain_logistics.Tracking.Queries.{
  QueryState, Sources, TrackingEventFilter, is_between, matches, scan_ids, query_get_product_events,
  query_get_events_by_type, query_get_events_by_time_range, query_get_filtered_events,
}
use chain_logistics.Tracking.Pages.{page_of, IsReady}
use chain_logistics.Tracking.Answers.{query_pages, get_event_ids_by_type_lem}

abbrev moment : ℕ → Ctx
moment t = record { timestamp = t; current_contract_address = 9; authorized = λ _. true }

abbrev main : MainContract
main _ = some false

abbrev shipment : Symbol → NewEvent
shipment kind = record {
  by = 1;
  product = "PROD1";
  kind = kind;
  location = "Port";
  data_hash = [];
  note = "";
  metadata = [];
}

abbrev requests : List (Ctx × Request)
requests =
    (moment 1, setup 7)
    ∷ (moment 10, add_event (shipment "created"))
    ∷ (moment 20, add_event (shipment "shipped"))
    ∷ (moment 30, add_event (record (shipment "shipped") { product = "" }))
    ∷ (moment 40, add_event (shipment "created"))
    ∷ []

abbrev tracked : TrackingStore.State
tracked = run main requests empty

tracked-TrackingInv : TrackingInv tracked
tracked-TrackingInv = run-TrackingInv main requests empty empty-TrackingInv

-- The event without a product is refused, and numbers follow the additions.
numbers :
    (get_product_event_ids "PROD1" tracked ≡ 1 ∷ 2 ∷ 3 ∷ [])
    × ((get_event_ids_by_type "PROD1" "created" 0 10 tracked).0 ≡ ok (1 ∷ 3 ∷ []))
    × ((get_event_ids_by_type "PROD1" "created" 1 1 tracked).0 ≡ ok (3 ∷ []))
unfolding run step init tracking_add_event next_event_id index_event_by_type validate_metadata
    check_values get_event_ids_by_type read_index
numbers = (refl, refl, refl)

step-TrackingInv_example :
    TrackingInv (step main (moment 50) (add_event (shipment "received")) tracked)
step-TrackingInv_example =
    step-TrackingInv main (moment 50) (add_event (shipment "received")) tracked tracked-TrackingInv

abbrev sources : Sources
sources = record { has_product = λ p. str_eq p "PROD1"; tracking = tracked }

abbrev ready : QueryState
ready = record { registry_contract = some 3; tracking_contract = some 4 }

ready-IsReady : IsReady sources "PROD1" ready
unfolding run step init tracking_add_event next_event_id index_event_by_type validate_metadata
    check_values
ready-IsReady = record {
  registry_set = λ e. absurd (cc);
  tracking_set = λ e. absurd (cc);
  named = omega arith;
  short = omega arith;
  registered = refl;
  fits = omega arith;
}

abbrev early : TrackingEventFilter
early = record { event_type = "created"; start_time = 0; end_time = 35; location = "" }

query_pages_example :
    let ids = get_product_event_ids "PROD1" tracked in
    (query_get_product_events sources "PROD1" 1 2 ready
      ≡ (ok (page_of 1 2 (history tracked (λ _. true) ids)), ready))
    × (query_get_events_by_type sources "PROD1" "created" 1 2 ready
        ≡ (ok (page_of 1 2 (history tracked (has_kind "created") ids)), ready))
    × (query_get_events_by_time_range sources (moment 60) "PROD1" 15 50 1 2 ready
        ≡ (ok (page_of 1 2 (history tracked (is_between 15 50) ids)), ready))
    × (query_get_filtered_events sources (moment 60) "PROD1" early 1 2 ready
        ≡ (ok (page_of 1 2 (history tracked (matches early) ids)), ready))
query_pages_example =
    query_pages sources (moment 60) "PROD1" "created" 15 50 early 1 2 ready tracked-TrackingInv
      ready-IsReady refl (omega arith, inr (omega arith, omega arith))
      (omega arith, inr (omega arith, omega arith))

get_event_ids_by_type_lem_example : get_event_ids_by_type "PROD1" "created" 1 1 tracked ≡ (
  ok (slice 1 1 (scan_ids tracked (has_kind "created") (get_product_event_ids "PROD1" tracked))),
  tracked,
)
get_event_ids_by_type_lem_example =
    get_event_ids_by_type_lem tracked "PROD1" "created" 1 1 tracked-TrackingInv (omega arith)
