-- ===== src/Main/Reading.antt =====
-- The four queries for pages of contract.rs together, within 32 bits and past them.
use chain_logistics.Base.{
  ℕ, Bool, ◌+◌, ◌≤◌, ◌≡◌, ◌≢◌, ap, ◌∙◌, sym, true, false, none, String, List, arith, str_eq, length,
  slice, length-filter_map, filter_map,
}
use chain_logistics.Host.Call.{Symbol, Ctx, ok}
use chain_logistics.Tracking.State as TrackingStore
use chain_logistics.Tracking.State.{TrackingEvent, get_event}
use chain_logistics.Tracking.History.{history, has_kind, scanned}
use chain_logistics.Tracking.Growth.{TrackingInv}
use chain_logistics.Tracking.Queries.{
  TrackingEventPage, TrackingEventFilter, is_bad_limit, is_between, matches, scan_ids,
}
use chain_logistics.Tracking.Pages.{page_of, scan_ids_lem, scanned-AllFound, length-scanned}
use chain_logistics.Tracking.Answers.{IsRange}
use chain_logistics.Main.State.{State}
use chain_logistics.Main.Queries.{
  page_of_matching, get_product_events, get_events_by_type, get_events_by_time_range,
  get_filtered_events,
}
use chain_logistics.Main.Pages.{page_of_matching_past}
use chain_logistics.Main.Answers.{
  product_pages, type_pages, time_range_pages, filtered_pages, scan_page, range_ok,
}

-- Where the events' lists and indexes are in step and the product is stored, every query with a limit
-- from 1 to 1000 and an offset such that both have a sum within 32 bits succeeds: its page is that
-- slice of the product's events, of those of the type (not empty), of those in the (valid) range of
-- times, or of those that match the filter (with valid times), in the order of their numbers, with
-- their total number and whether there are more.
pub main_pages :
    (c : Ctx) (p : String) (kind : Symbol) (start_time end_time : ℕ) (filter : TrackingEventFilter)
    (offset limit : ℕ) (s : State)
    → TrackingInv s.events
    → s.product p ≢ none
    → str_eq kind "" ≡ false
    → is_bad_limit limit ≡ false
    → offset + limit ≤ 4294967295
    → IsRange c start_time end_time
    → IsRange c filter.start_time filter.end_time
    → let ids = TrackingStore.get_product_event_ids p s.events in
      (get_product_events p offset limit s
        ≡ (ok (page_of offset limit (history s.events (λ _. true) ids)), s))
      × (get_events_by_type p kind offset limit s
          ≡ (ok (page_of offset limit (history s.events (has_kind kind) ids)), s))
      × (get_events_by_time_range c p start_time end_time offset limit s
          ≡ (ok (page_of offset limit (history s.events (is_between start_time end_time) ids)), s))
      × (get_filtered_events c p filter offset limit s
          ≡ (ok (page_of offset limit (history s.events (matches filter) ids)), s))
main_pages c p kind start_time end_time filter offset limit s inv known named l fits t f =
    let ids = TrackingStore.get_product_event_ids p s.events in
    (
      product_pages p offset limit s inv known l fits,
      type_pages p kind offset limit s inv known named l fits,
      time_range_pages c p start_time end_time offset limit s known l
            (range_ok c start_time end_time s t)
          ∙ scan_page s (is_between start_time end_time) ids offset limit fits,
      filtered_pages c p filter offset limit s known l f
          ∙ scan_page s (matches filter) ids offset limit fits,
    )

-- The page of everything from the `k`th event on.
abbrev pub rest_of : ℕ → List TrackingEvent → TrackingEventPage
rest_of k all = record {
  events = slice k (length all) all;
  total_count = length all;
  has_more = false;
}

scan_past :
    (s : State) (test : TrackingEvent → Bool) (ids : List ℕ) (k limit : ℕ)
    → k ≤ 4294967295
    → length ids ≤ 4294967295
    → limit ≤ 4294967295
    → page_of_matching (scan_ids s.events test ids) (4294967296 + k) limit s
      ≡ (ok (rest_of k (history s.events test ids)), s)
scan_past s test ids k limit small few l =
    let (h, e) = scanned-AllFound s.events test ids in
    let found = filter_map (scanned s.events test) ids in
    let n = length-scanned s.events test ids in
    let total = sym (length-filter_map (λ eid. get_event eid s.events) found h) in
    ap (λ i. page_of_matching i (4294967296 + k) limit s) (scan_ids_lem s.events test ids)
    ∙ page_of_matching_past s found k limit h small (omega (arith, n)) l
    ∙ ap
        (λ m. (
          ok (record {
            events = slice k m (filter_map (λ eid. get_event eid s.events) found);
            total_count = m;
            has_more = false;
          }),
          s,
        ))
        total
    ∙ ap (λ i. (ok (rest_of k i), s)) e

-- The queries by time and by filter start at the low 32 bits of the offset: at an offset of 2^32 + k,
-- with any valid limit, they answer with all matching events from the kth on, however many, and not
-- with an empty page.
pub past_pages_unbounded :
    (c : Ctx) (p : String) (start_time end_time : ℕ) (filter : TrackingEventFilter) (k limit : ℕ)
    (s : State)
    → s.product p ≢ none
    → length (TrackingStore.get_product_event_ids p s.events) ≤ 4294967295
    → is_bad_limit limit ≡ false
    → k ≤ 4294967295
    → IsRange c start_time end_time
    → IsRange c filter.start_time filter.end_time
    → let ids = TrackingStore.get_product_event_ids p s.events in
      (get_events_by_time_range c p start_time end_time (4294967296 + k) limit s
        ≡ (ok (rest_of k (history s.events (is_between start_time end_time) ids)), s))
      × (get_filtered_events c p filter (4294967296 + k) limit s
          ≡ (ok (rest_of k (history s.events (matches filter) ids)), s))
past_pages_unbounded c p start_time end_time filter k limit s known few l small t f =
    let ids = TrackingStore.get_product_event_ids p s.events in
    let at_most : limit ≤ 4294967295 = ground (arith, l) in
    (
      time_range_pages c p start_time end_time (4294967296 + k) limit s known l
            (range_ok c start_time end_time s t)
          ∙ scan_past s (is_between start_time end_time) ids k limit small few at_most,
      filtered_pages c p filter (4294967296 + k) limit s known l f
          ∙ scan_past s (matches filter) ids k limit small few at_most,
    )
