-- ===== src/Main/Queries.antt =====
-- The queries of contract.rs.
use chain_logistics.Base.{
  ℕ, ◌-◌, ◌%◌, min, ◌||◌, String, List, [], ltb, ◌==◌, if◌then◌else◌, length, collect_range,
}
use chain_logistics.Host.Errors.{Error}
use chain_logistics.Host.Call.{Symbol, Ctx, Call, ◌>>=◌, ◌>>◌, pure, ok_or, gets, checked_add_u64}
use chain_logistics.Validation.{validate_event_type, validate_pagination_limit, validate_time_range}
use chain_logistics.Tracking.State as TrackingStore
use chain_logistics.Tracking.State.{TrackingEvent}
use chain_logistics.Tracking.Queries.{
  TrackingEventPage, TrackingEventFilter, max_page_limit, is_between, matches, scan_ids,
}
use chain_logistics.Main.State.{State, on_events}
use chain_logistics.Main.Events.{read_product, calc_has_more, max_event_id_page_limit}

unfoldable pub get_event : ℕ → Call State TrackingEvent
get_event event_id = do
  ok_or (← gets λ s. TrackingStore.get_event event_id s.events) Error.event_not_found

abbrev pub all_event_ids : String → Call State (List ℕ)
all_event_ids product_id = gets λ s. TrackingStore.get_product_event_ids product_id s.events

-- The loop that fetches the events of `ids[start..end]`.
abbrev pub fetch_range : List ℕ → ℕ → ℕ → Call State (List TrackingEvent)
fetch_range ids start end =
    gets λ s. collect_range (λ eid. TrackingStore.get_event eid s.events) ids start (end - start)

-- The events of a page of numbers, and whether there are more.
unfoldable pub page_of_ids : List ℕ → ℕ → ℕ → Call State TrackingEventPage
page_of_ids event_ids offset total_count = do
  events ← fetch_range event_ids 0 (length event_ids)
  has_more ← calc_has_more offset (length event_ids) total_count
  pure (record { events = events; total_count = total_count; has_more = has_more })

-- The page of the matching numbers: `offset as u32` up to `offset + limit`, no higher than `u32`.
unfoldable pub page_of_matching : List ℕ → ℕ → ℕ → Call State TrackingEventPage
page_of_matching matching_ids offset limit = do
  let start = offset % 4294967296
  end_u64 ← ok_or (checked_add_u64 offset limit) Error.arithmetic_overflow
  events ← fetch_range matching_ids start (min (min end_u64 4294967295) (length matching_ids))
  has_more ← calc_has_more offset (length events) (length matching_ids)
  pure (record { events = events; total_count = length matching_ids; has_more = has_more })

unfoldable pub get_product_events : String → ℕ → ℕ → Call State TrackingEventPage
unfolding page_of_ids
get_product_events product_id offset limit = do
  read_product product_id
  validate_pagination_limit limit max_page_limit
  all_ids ← all_event_ids product_id
  event_ids ← on_events (TrackingStore.get_product_event_ids_paginated product_id offset limit)
  page_of_ids event_ids offset (length all_ids)

unfoldable pub get_events_by_type : String → Symbol → ℕ → ℕ → Call State TrackingEventPage
unfolding page_of_ids
get_events_by_type product_id event_type offset limit = do
  read_product product_id
  validate_event_type event_type
  validate_pagination_limit limit max_page_limit
  total_count ← gets (λ s. TrackingStore.get_event_count_by_type product_id event_type s.events)
  event_ids ← on_events (TrackingStore.get_event_ids_by_type product_id event_type offset limit)
  page_of_ids event_ids offset total_count

unfoldable pub get_events_by_time_range :
    Ctx → String → ℕ → ℕ → ℕ → ℕ → Call State TrackingEventPage
unfolding page_of_matching
get_events_by_time_range c product_id start_time end_time offset limit = do
  read_product product_id
  validate_time_range c start_time end_time
  validate_pagination_limit limit max_page_limit
  all_ids ← all_event_ids product_id
  matching_ids ← gets (λ s. scan_ids s.events (is_between start_time end_time) all_ids)
  page_of_matching matching_ids offset limit

-- The validation of the times, which the extreme times skip.
abbrev pub validate_filter : Ctx → TrackingEventFilter → Call State (Unit {0})
validate_filter c filter =
    if ltb 0 filter.start_time || ltb filter.end_time 18446744073709551615
    then validate_time_range c filter.start_time filter.end_time
    else pure tt

unfoldable pub get_filtered_events :
    Ctx → String → TrackingEventFilter → ℕ → ℕ → Call State TrackingEventPage
unfolding page_of_matching
get_filtered_events c product_id filter offset limit = do
  read_product product_id
  validate_pagination_limit limit max_page_limit
  validate_filter c filter
  all_ids ← all_event_ids product_id
  matching_ids ← gets (λ s. scan_ids s.events (matches filter) all_ids)
  page_of_matching matching_ids offset limit

unfoldable pub get_product_event_ids : String → Call State (List ℕ)
get_product_event_ids product_id = do read_product product_id; all_event_ids product_id

unfoldable pub get_product_event_ids_paginated : String → ℕ → ℕ → Call State (List ℕ)
get_product_event_ids_paginated product_id offset limit = do
  read_product product_id
  if limit == 0
      then pure []
      else on_events (
          TrackingStore.get_product_event_ids_paginated product_id offset
            (min limit max_event_id_page_limit))

unfoldable pub get_product_event_count : String → Call State ℕ
get_product_event_count product_id = do
  read_product product_id
  all_ids ← all_event_ids product_id
  pure (length all_ids)

-- `ids.len() as u64`
unfoldable pub get_event_count : String → Call State ℕ
get_event_count product_id = do
  read_product product_id
  all_ids ← all_event_ids product_id
  pure (length all_ids)

unfoldable pub get_event_count_by_type : String → Symbol → Call State ℕ
get_event_count_by_type product_id event_type = do
  read_product product_id
  gets (λ s. TrackingStore.get_event_count_by_type product_id event_type s.events)
