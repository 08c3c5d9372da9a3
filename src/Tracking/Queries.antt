-- ===== src/Tracking/Queries.antt =====
-- The entry points of event_query.rs. They read the registry and the tracking contract.
use chain_logistics.Base.{
  ℕ, ◌-◌, ◌%◌, min, Bool, true, false, not, ◌&&◌, ◌||◌, Option, none, some, String, List, [], ltb,
  leb, ◌==◌, str_eq, if◌then◌else◌, length, collect_range,
}
use chain_logistics.Host.Errors.{Error}
use chain_logistics.Host.Call.{
  Address, Symbol, Ctx, Call, ok, ◌>>=◌, ◌>>◌, pure, fail_if, ok_or, gets, modify, add_u64,
  checked_add_u64,
}
use chain_logistics.Validation.{
  validate_contract_address, non_empty, max_len, max_product_id_len, validate_time_range,
}
use chain_logistics.Tracking.History.{has_kind}
use chain_logistics.Tracking.State as TrackingStore
use chain_logistics.Tracking.State.{
  TrackingEvent, get_event, get_product_event_ids, get_event_count_by_type,
}

pub record QueryState : Type 0 where
  pub registry_contract : Option Address
  pub tracking_contract : Option Address

-- What the queries read elsewhere: whether the registry has a product, and the tracking contract.
pub record Sources : Type 0 where
  pub has_product : String → Bool
  pub tracking : TrackingStore.State

pub record TrackingEventPage : Type 0 where
  pub events : List TrackingEvent
  pub total_count : ℕ
  pub has_more : Bool

-- An empty type or location and the extreme times skip their test.
pub record TrackingEventFilter : Type 0 where
  pub event_type : Symbol
  pub start_time : ℕ
  pub end_time : ℕ
  pub location : String

abbrev pub max_page_limit : ℕ
max_page_limit = 1000

unfoldable pub ensure_product_exists : Sources → String → Call QueryState (Unit {0})
ensure_product_exists src product_id = do
  non_empty product_id
  max_len product_id max_product_id_len
  ok_or (← gets λ s. s.registry_contract) Error.not_initialized >> pure tt
  fail_if (not (src.has_product product_id)) Error.product_not_found

unfoldable pub init : Ctx → Address → Address → Call QueryState (Unit {0})
init c registry_contract tracking_contract = do
  fail_if
      (elim (← gets λ s. s.registry_contract) [ none ↦ false | some _ ↦ true ]
        || elim (← gets λ s. s.tracking_contract) [ none ↦ false | some _ ↦ true ])
      Error.already_initialized
  validate_contract_address c registry_contract
  validate_contract_address c tracking_contract
  modify (λ s. record s { registry_contract = some registry_contract })
  modify (λ s. record s { tracking_contract = some tracking_contract })

abbrev pub empty_page : ℕ → TrackingEventPage
empty_page total = record { events = []; total_count = total; has_more = false }

-- `validate_pagination_limit(limit, MAX_PAGE_LIMIT).is_err()`
abbrev pub is_bad_limit : ℕ → Bool
is_bad_limit limit = limit == 0 || ltb max_page_limit limit

-- `require tracking, read the ids of the product`
abbrev pub read_ids : Sources → String → Call QueryState (List ℕ)
read_ids src product_id = do
  ensure_product_exists src product_id
  ok_or (← gets λ s. s.tracking_contract) Error.not_initialized >> pure tt
  pure (get_product_event_ids product_id src.tracking)

-- The loop that fetches the events `start..end`, and the page that is made of them.
unfoldable pub fetch_page : Sources → List ℕ → ℕ → ℕ → Call QueryState TrackingEventPage
fetch_page src ids offset end = do
  let events = collect_range (λ eid. get_event eid src.tracking) ids offset (end - offset)
  seen ← ok_or (checked_add_u64 offset (length events)) Error.arithmetic_overflow
  pure (record { events = events; total_count = length ids; has_more = ltb seen (length ids) })

-- `((offset + limit) as u32).min(ids.len())`, and the page up to there.
unfoldable pub page_wrapping : Sources → List ℕ → ℕ → ℕ → Call QueryState TrackingEventPage
unfolding fetch_page
page_wrapping src ids offset limit s =
    if leb (length ids) offset
    then (ok (empty_page (length ids)), s)
    else (add_u64 offset limit >>= λ end.
          fetch_page src ids offset (min (end % 4294967296) (length ids)))
        s

-- `(offset.checked_add(limit)?.min(u32::MAX as u64) as u32).min(ids.len())`, and the page up to there.
unfoldable pub page_saturating : Sources → List ℕ → ℕ → ℕ → Call QueryState TrackingEventPage
unfolding fetch_page
page_saturating src ids offset limit s =
    if leb (length ids) offset
    then (ok (empty_page (length ids)), s)
    else (ok_or (checked_add_u64 offset limit) Error.arithmetic_overflow >>= λ end.
          fetch_page src ids offset (min (min end 4294967295) (length ids)))
        s

-- The loop that keeps the ids of the stored events that pass a test.
unfoldable pub scan_ids : TrackingStore.State → (TrackingEvent → Bool) → List ℕ → List ℕ
scan_ids tracking test all_ids =
    collect_range
      (λ eid. elim (get_event eid tracking) [
        | none ↦ none
        | some e ↦ if test e then some eid else none
      ])
      all_ids 0 (length all_ids)

unfoldable pub query_get_product_events :
    Sources → String → ℕ → ℕ → Call QueryState TrackingEventPage
unfolding ensure_product_exists page_wrapping
query_get_product_events src product_id offset limit s =
    if is_bad_limit limit
    then (ok (empty_page 0), s)
    else (read_ids src product_id >>= λ all_ids. page_wrapping src all_ids offset limit) s

unfoldable pub query_get_events_by_type :
    Sources → String → Symbol → ℕ → ℕ → Call QueryState TrackingEventPage
unfolding ensure_product_exists page_saturating
query_get_events_by_type src product_id event_type offset limit s =
    if is_bad_limit limit
    then (ok (empty_page 0), s)
    else (read_ids src product_id >>= λ all_ids.
          page_saturating src (scan_ids src.tracking (has_kind event_type) all_ids) offset limit)
        s

abbrev pub is_between : ℕ → ℕ → TrackingEvent → Bool
is_between start_time end_time e = leb start_time e.timestamp && leb e.timestamp end_time

unfoldable pub query_get_events_by_time_range :
    Sources → Ctx → String → ℕ → ℕ → ℕ → ℕ → Call QueryState TrackingEventPage
unfolding ensure_product_exists page_wrapping
query_get_events_by_time_range src c product_id start_time end_time offset limit s =
    if is_bad_limit limit
    then (ok (empty_page 0), s)
    else (validate_time_range c start_time end_time >> read_ids src product_id >>= λ all_ids.
          page_wrapping src (scan_ids src.tracking (is_between start_time end_time) all_ids) offset
            limit)
        s

unfoldable pub matches : TrackingEventFilter → TrackingEvent → Bool
matches filter e =
    (str_eq filter.event_type "" || str_eq e.event_type filter.event_type)
    && ((filter.start_time == 0 || leb filter.start_time e.timestamp)
        && ((leb 18446744073709551615 filter.end_time || leb e.timestamp filter.end_time)
            && (str_eq filter.location "" || str_eq e.location filter.location)))

-- The validation of the times, which the default filter skips.
abbrev pub validate_times : Ctx → TrackingEventFilter → Call QueryState (Unit {0})
validate_times c filter s =
    if ltb 0 filter.start_time || ltb filter.end_time 18446744073709551615
    then validate_time_range c filter.start_time filter.end_time s
    else pure tt s

unfoldable pub query_get_filtered_events :
    Sources → Ctx → String → TrackingEventFilter → ℕ → ℕ → Call QueryState TrackingEventPage
unfolding ensure_product_exists page_saturating
query_get_filtered_events src c product_id filter offset limit s =
    if is_bad_limit limit
    then (ok (empty_page 0), s)
    else (validate_times c filter >> read_ids src product_id >>= λ all_ids.
          page_saturating src (scan_ids src.tracking (matches filter) all_ids) offset limit)
        s

unfoldable pub query_get_event_count : Sources → String → Call QueryState ℕ
query_get_event_count src product_id = do ids ← read_ids src product_id; pure (length ids)

unfoldable pub query_get_event_count_by_type : Sources → String → Symbol → Call QueryState ℕ
query_get_event_count_by_type src product_id event_type = do
  read_ids src product_id >> pure tt
  pure (get_event_count_by_type product_id event_type src.tracking)
