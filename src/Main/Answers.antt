-- ===== src/Main/Answers.antt =====
-- What the queries of contract.rs answer: slices of a product's history, and more than the limit at
-- an offset past 32 bits.
use chain_logistics.Base.{
  ℕ, Bool, ◌+◌, ◌-◌, ◌%◌, ◌≤◌, drop_all, take, take_nil, ◌≡◌, ◌≢◌, ap, ◌∙◌, inl, inr, min, true,
  false, none, some, String, List, [], arith, leb, str_eq, length, Bool-cases, slice, collect_range,
  collect_range-slice, slice-min,
}
use chain_logistics.Host.Call.{Symbol, Ctx, ok}
use chain_logistics.Validation.{validate_time_range}
use chain_logistics.Tracking.State as TrackingStore
use chain_logistics.Tracking.State.{TrackingEvent, get_event}
use chain_logistics.Tracking.History.{history, has_kind, of_kind}
use chain_logistics.Tracking.Growth.{TrackingInv}
use chain_logistics.Tracking.Queries.{
  TrackingEventFilter, is_bad_limit, is_between, matches, scan_ids,
}
use chain_logistics.Tracking.Pages.{page_of, scan_ids_lem, scanned-AllFound}
use chain_logistics.Tracking.Answers.{
  AllListed-AllFound, IsRange, get_event_ids_by_type_lem, filter_map-some,
}
use chain_logistics.Main.State.{State}
use chain_logistics.Main.Queries.{
  page_of_matching, get_product_events, get_events_by_type, get_events_by_time_range,
  get_filtered_events,
}
use chain_logistics.Main.Pages.{page_of_ids_lem, page_of_matching_lem}

paginated_read :
    (e : TrackingStore.State) (p : String) (offset limit : ℕ)
    → is_bad_limit limit ≡ false
    → leb (length (TrackingStore.get_product_event_ids p e)) offset ≡ false
    → offset + limit ≤ 18446744073709551615
    → collect_range some (TrackingStore.get_product_event_ids p e) offset (
        min ((offset + limit) % 4294967296) (length (TrackingStore.get_product_event_ids p e))
        - offset)
      ≡ slice offset limit (TrackingStore.get_product_event_ids p e)
    → TrackingStore.get_product_event_ids_paginated p offset limit e
      ≡ (ok (slice offset limit (TrackingStore.get_product_event_ids p e)), e)
unfolding TrackingStore.get_product_event_ids_paginated
paginated_read e p offset limit l q fits read =
    let sum : leb (offset + limit) 18446744073709551615 ≡ true = ground arith in
    rw l (rw q (rw sum (ap (λ k. (ok k, e)) read)))

paginated_lem :
    (e : TrackingStore.State) (p : String) (offset limit : ℕ)
    → is_bad_limit limit ≡ false
    → offset + limit ≤ 4294967295
    → TrackingStore.get_product_event_ids_paginated p offset limit e
      ≡ (ok (slice offset limit (TrackingStore.get_product_event_ids p e)), e)
unfolding TrackingStore.get_product_event_ids_paginated
paginated_lem e p offset limit l fits =
    let ids = TrackingStore.get_product_event_ids p e in
    elim (Bool-cases (leb (length ids) offset)) [
      | inl q ↦
          let past : slice offset limit ids ≡ [] =
            ap (take limit) (drop_all ids offset (ground (arith, q))) ∙ take_nil limit in
          ground (arith, l, q, past)
      | inr q ↦
          let read =
            collect_range-slice some ids offset (min (offset + limit) (length ids) - offset)
            ∙ filter_map-some _
            ∙ slice-min offset limit ids in
          let end : min ((offset + limit) % 4294967296) (length ids)
              ≡ min (offset + limit) (length ids) =
            ground arith in
          let cast : collect_range some ids offset
                (min ((offset + limit) % 4294967296) (length ids) - offset)
              ≡ slice offset limit ids =
            rw end read in
          paginated_read e p offset limit l q (omega arith) cast
    ]

-- The page of the product's events that pass a test, as the scanning queries compute it.
pub scan_page :
    (s : State) (test : TrackingEvent → Bool) (ids : List ℕ) (offset limit : ℕ)
    → offset + limit ≤ 4294967295
    → page_of_matching (scan_ids s.events test ids) offset limit s
      ≡ (ok (page_of offset limit (history s.events test ids)), s)
scan_page s test ids offset limit fits =
    let (h, e) = scanned-AllFound s.events test ids in
    ap (λ k. page_of_matching k offset limit s) (scan_ids_lem s.events test ids)
    ∙ page_of_matching_lem s _ offset limit h fits
    ∙ ap (λ k. (ok (page_of offset limit k), s)) e

pub range_ok :
    (c : Ctx) (start_time end_time : ℕ) (s : State)
    → IsRange c start_time end_time
    → validate_time_range c start_time end_time s ≡ (ok tt, s)
range_ok c start_time end_time s r = ground arith

pub time_range_pages :
    (c : Ctx) (p : String) (start_time end_time offset limit : ℕ) (s : State)
    → s.product p ≢ none
    → is_bad_limit limit ≡ false
    → validate_time_range c start_time end_time s ≡ (ok tt, s)
    → get_events_by_time_range c p start_time end_time offset limit s
      ≡ page_of_matching
          (scan_ids s.events
            (is_between start_time end_time)
            (TrackingStore.get_product_event_ids p s.events))
          offset
          limit
          s
unfolding get_events_by_time_range
time_range_pages c p start_time end_time offset limit s known l valid =
    ground (arith, known, l, valid)

pub filtered_pages :
    (c : Ctx) (p : String) (filter : TrackingEventFilter) (offset limit : ℕ) (s : State)
    → s.product p ≢ none
    → is_bad_limit limit ≡ false
    → IsRange c filter.start_time filter.end_time
    → get_filtered_events c p filter offset limit s
      ≡ page_of_matching
          (scan_ids s.events (matches filter) (TrackingStore.get_product_event_ids p s.events))
          offset
          limit
          s
unfolding get_filtered_events
filtered_pages c p filter offset limit s known l t = ground (arith, known, l, t)

pub product_pages :
    (p : String) (offset limit : ℕ) (s : State)
    → TrackingInv s.events
    → s.product p ≢ none
    → is_bad_limit limit ≡ false
    → offset + limit ≤ 4294967295
    → get_product_events p offset limit s ≡ (
      ok (
          page_of offset limit
            (history s.events (λ _. true) (TrackingStore.get_product_event_ids p s.events))),
      s,
    )
unfolding get_product_events
product_pages p offset limit s inv known l fits =
    let ids = TrackingStore.get_product_event_ids p s.events in
    let (stored, whole) = AllListed-AllFound s.events p ids (inv p).listed in
    let read = paginated_lem s.events p offset limit l fits in
    let page =
      page_of_ids_lem s ids offset limit stored (omega (arith, fits))
      ∙ ap (λ k. (ok (page_of offset limit k), s)) whole in
    ground (arith, known, l, read, page)

pub type_pages :
    (p : String) (kind : Symbol) (offset limit : ℕ) (s : State)
    → TrackingInv s.events
    → s.product p ≢ none
    → str_eq kind "" ≡ false
    → is_bad_limit limit ≡ false
    → offset + limit ≤ 4294967295
    → get_events_by_type p kind offset limit s ≡ (
      ok (
          page_of offset limit
            (history s.events (has_kind kind) (TrackingStore.get_product_event_ids p s.events))),
      s,
    )
unfolding get_events_by_type
type_pages p kind offset limit s inv known named l fits =
    let ids = TrackingStore.get_product_event_ids p s.events in
    let (stored, whole) = scanned-AllFound s.events (has_kind kind) ids in
    let scan = scan_ids_lem s.events (has_kind kind) ids in
    let read =
      get_event_ids_by_type_lem s.events p kind offset limit inv (omega (arith, fits))
      ∙ ap (λ k. (ok (slice offset limit k), s.events)) scan in
    let total = (inv p).counted kind in
    let page =
      page_of_ids_lem s (of_kind s.events kind ids) offset limit stored (omega (arith, fits))
      ∙ ap (λ k. (ok (page_of offset limit k), s)) whole in
    ground (arith, known, named, l, read, total, page)
