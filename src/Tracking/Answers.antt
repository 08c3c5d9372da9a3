-- ===== src/Tracking/Answers.antt =====
-- What event_query.rs and the index by type answer: slices of a product's history.
use chain_logistics.Base.{
  ℕ, zero, suc, ◌+◌, ◌-◌, ◌≤◌, ◌≡◌, refl, ap, ◌∙◌, ◌⊎◌, inl, inr, min, true, false, Option, some,
  String, List, [], ◌∷◌, arith, leb, length, Option-cases, Bool-cases, get_elem?, slice, filter_map,
  collect_range, collect_range-slice, AllFound, take, drop_all, take_nil, slice-min,
}
use chain_logistics.Host.Call.{Symbol, Ctx, ok, bind_ok, if_false, ◌>>◌}
use chain_logistics.Validation.{validate_time_range}
use chain_logistics.Tracking.State as TrackingStore
use chain_logistics.Tracking.State.{
  TrackingEvent, get_event, get_product_event_ids, read_index, get_event_ids_by_type,
  get_event_count_by_type,
}
use chain_logistics.Tracking.History.{history, has_kind, of_kind}
use chain_logistics.Tracking.Growth.{AllListed, TrackingInv}
use chain_logistics.Tracking.Queries.{
  QueryState, Sources, TrackingEventFilter, is_bad_limit, is_between, matches,
  ensure_product_exists, scan_ids, read_ids, validate_times, query_get_product_events,
  query_get_events_by_type, query_get_events_by_time_range, query_get_filtered_events,
  page_wrapping, page_saturating,
}
use chain_logistics.Tracking.Pages.{
  page_of, IsReady, scan_ids_lem, scan_page_saturating, scan_page_wrapping, page_wrapping_lem,
}

pub AllListed-AllFound :
    (s : TrackingStore.State) (p : String) (ids : List ℕ)
    → AllListed s p ids
    → AllFound (λ eid. get_event eid s) ids
      × (filter_map (λ eid. get_event eid s) ids ≡ history s (λ _. true) ids)
AllListed-AllFound s p [] h = (tt, refl)
AllListed-AllFound s p (i ∷ ids) (l, h) =
    let (k, e) = AllListed-AllFound s p ids h in
    (((l.event, l.stored), k), ground (arith, l.stored, e))

-- The times that `validate_time_range` accepts.
abbrev pub IsRange : Ctx → ℕ → ℕ → Type 0
IsRange c start_time end_time =
    (start_time ≤ c.timestamp)
    × ((end_time ≡ 18446744073709551615) ⊎ ((start_time ≤ end_time) × (end_time ≤ c.timestamp)))

range_ok :
    (c : Ctx) (start_time end_time : ℕ) (s : QueryState)
    → IsRange c start_time end_time
    → validate_time_range c start_time end_time s ≡ (ok tt, s)
range_ok c start_time end_time s r = ground arith

times_ok :
    (c : Ctx) (filter : TrackingEventFilter) (s : QueryState)
    → IsRange c filter.start_time filter.end_time
    → validate_times c filter s ≡ (ok tt, s)
times_ok c filter s r = ground arith

read_ids_ok :
    (src : Sources) (p : String) (s : QueryState)
    → IsReady src p s
    → read_ids src p s ≡ (ok (get_product_event_ids p src.tracking), s)
unfolding ensure_product_exists
read_ids_ok src p s r = ground arith

time_range_pages :
    (src : Sources) (c : Ctx) (p : String) (start_time end_time offset limit : ℕ) (s : QueryState)
    → IsReady src p s
    → is_bad_limit limit ≡ false
    → IsRange c start_time end_time
    → query_get_events_by_time_range src c p start_time end_time offset limit s
      ≡ page_wrapping src
          (scan_ids src.tracking
            (is_between start_time end_time)
            (get_product_event_ids p src.tracking))
          offset
          limit
          s
unfolding query_get_events_by_time_range ensure_product_exists
time_range_pages src c p start_time end_time offset limit s r l t =
    let v = range_ok c start_time end_time s t in
    let m = bind_ok (validate_time_range c start_time end_time) (λ _. read_ids src p) s s v in
    if_false _ _ l
    ∙ bind_ok (validate_time_range c start_time end_time >> read_ids src p)
        (λ all_ids.
          page_wrapping src (scan_ids src.tracking (is_between start_time end_time) all_ids) offset
            limit)
        s s (m ∙ read_ids_ok src p s r)

filtered_pages :
    (src : Sources) (c : Ctx) (p : String) (filter : TrackingEventFilter) (offset limit : ℕ)
    (s : QueryState)
    → IsReady src p s
    → is_bad_limit limit ≡ false
    → IsRange c filter.start_time filter.end_time
    → query_get_filtered_events src c p filter offset limit s
      ≡ page_saturating src
          (scan_ids src.tracking (matches filter) (get_product_event_ids p src.tracking))
          offset
          limit
          s
unfolding query_get_filtered_events ensure_product_exists
filtered_pages src c p filter offset limit s r l t =
    let v = times_ok c filter s t in
    let m = bind_ok (validate_times c filter) (λ _. read_ids src p) s s v in
    if_false _ _ l
    ∙ bind_ok (validate_times c filter >> read_ids src p)
        (λ all_ids.
          page_saturating src (scan_ids src.tracking (matches filter) all_ids) offset limit)
        s s (m ∙ read_ids_ok src p s r)

-- Where the tracking contract's invariant holds, the query contract is set up and the product is
-- registered, every query with a limit from 1 to 1000 succeeds, at any offset: its page is that
-- slice of the product's events, of those of the type, of those in the (valid) range of times, or
-- of those that match the filter (with valid times), in the order of their numbers, with their
-- total number and whether there are more.
pub query_pages :
    (src : Sources) (c : Ctx) (p : String) (kind : Symbol) (start_time end_time : ℕ)
    (filter : TrackingEventFilter) (offset limit : ℕ) (s : QueryState)
    → TrackingInv src.tracking
    → IsReady src p s
    → is_bad_limit limit ≡ false
    → IsRange c start_time end_time
    → IsRange c filter.start_time filter.end_time
    → let ids = get_product_event_ids p src.tracking in
      (query_get_product_events src p offset limit s
        ≡ (ok (page_of offset limit (history src.tracking (λ _. true) ids)), s))
      × (query_get_events_by_type src p kind offset limit s
          ≡ (ok (page_of offset limit (history src.tracking (has_kind kind) ids)), s))
      × (query_get_events_by_time_range src c p start_time end_time offset limit s ≡ (
        ok (page_of offset limit (history src.tracking (is_between start_time end_time) ids)),
        s,
      ))
      × (query_get_filtered_events src c p filter offset limit s
          ≡ (ok (page_of offset limit (history src.tracking (matches filter) ids)), s))
unfolding query_get_product_events query_get_events_by_type ensure_product_exists
query_pages src c p kind start_time end_time filter offset limit s inv r l t f =
    let ids = get_product_event_ids p src.tracking in
    let (found_all, all) = AllListed-AllFound src.tracking p ids (inv p).listed in
    let few : limit ≤ 1000 = ground (arith, l) in
    let whole =
      page_wrapping_lem src ids offset limit s found_all r.fits few
      ∙ ap (λ k. (ok (page_of offset limit k), s)) all in
    let kinds = scan_page_saturating src (has_kind kind) ids offset limit s r.fits few in
    let times =
      scan_page_wrapping src (is_between start_time end_time) ids offset limit s r.fits few in
    let filtered = scan_page_saturating src (matches filter) ids offset limit s r.fits few in
    (
      ground (arith, whole, l),
      ground (arith, kinds, l),
      time_range_pages src c p start_time end_time offset limit s r l t ∙ times,
      filtered_pages src c p filter offset limit s r l f ∙ filtered,
    )

read_index_lem :
    (index : ℕ → Option ℕ) (l : List ℕ)
    → ((k : ℕ) → index k ≡ get_elem? l k)
    → (start rounds : ℕ) → read_index index start rounds ≡ collect_range some l start rounds
unfolding read_index
read_index_lem index l h start zero = refl
read_index_lem index l h start (suc n) = elim (Option-cases (get_elem? l start)) [
  | inl e ↦ ground (arith, e, h start, read_index_lem index l h (suc start) n)
  | inr (x, e) ↦ ground (arith, e, h start, read_index_lem index l h (suc start) n)
]

pub filter_map-some : (xs : List ℕ) → filter_map some xs ≡ xs
filter_map-some [] = refl
filter_map-some (x ∷ xs) = ap (◌∷◌ x) (filter_map-some xs)

-- Where the tracking contract's invariant holds, the index by type, which is kept as events are added,
-- answers what a scan of all the product's events finds: the page of the index at any offset is
-- that slice of the numbers of the product's events of the type, as long as offset and limit
-- have a sum in range.
pub get_event_ids_by_type_lem :
    (s : TrackingStore.State) (p : String) (kind : Symbol) (offset limit : ℕ)
    → TrackingInv s
    → offset + limit ≤ 18446744073709551615
    → get_event_ids_by_type p kind offset limit s
      ≡ (ok (slice offset limit (scan_ids s (has_kind kind) (get_product_event_ids p s))), s)
unfolding get_event_ids_by_type
get_event_ids_by_type_lem s p kind offset limit inv fits =
    let l = of_kind s kind (get_product_event_ids p s) in
    let total = (inv p).counted kind in
    let scan = scan_ids_lem s (has_kind kind) (get_product_event_ids p s) in
    let rounds = min (offset + limit) (length l) - offset in
    let read =
      read_index_lem (s.type_index p kind) l ((inv p).indexed kind) offset rounds
      ∙ collect_range-slice some l offset rounds
      ∙ filter_map-some (slice offset rounds l)
      ∙ slice-min offset limit l in
    elim (Bool-cases (leb (length l) offset)) [
      | inl q ↦
          let past : slice offset limit l ≡ [] =
            ap (take limit) (drop_all l offset (ground (arith, q))) ∙ take_nil limit in
          rw scan (ground (arith, total, q, past))
      | inr q ↦ rw scan (ground (arith, total, q, read))
    ]
