-- ===== src/Tracking/Pages.antt =====
-- The pages of event_query.rs are the slices of a product's history.
use chain_logistics.Base.{
  ℕ, ◌+◌, ◌-◌, ◌%◌, ◌≤◌, ◌<◌, ◌≡◌, ◌≢◌, refl, ap, ◌∙◌, inl, inr, min, Bool, true, false, Option,
  none, some, String, List, [], ◌∷◌, arith, ltb, leb, len, length, Option-cases, Bool-cases, slice,
  filter_map, collect_range, collect_range-slice, AllFound, length-filter_map, filter_map-slice,
  length-slice, drop, take, drop_all, take_nil, take_all, slice-min,
}
use chain_logistics.Host.Call.{ok}
use chain_logistics.Validation.{max_product_id_len}
use chain_logistics.Tracking.State as TrackingStore
use chain_logistics.Tracking.State.{TrackingEvent, get_event, get_product_event_ids}
use chain_logistics.Tracking.History.{found, history, scanned}
use chain_logistics.Tracking.Queries.{
  QueryState, Sources, TrackingEventPage, max_page_limit, fetch_page, page_saturating,
  page_wrapping, scan_ids,
}

abbrev pub page_of : ℕ → ℕ → List TrackingEvent → TrackingEventPage
page_of offset limit all = record {
  events = slice offset limit all;
  total_count = length all;
  has_more = ltb (offset + limit) (length all);
}

pub scan_ids_lem :
    (s : TrackingStore.State) (test : TrackingEvent → Bool) (ids : List ℕ)
    → scan_ids s test ids ≡ filter_map (scanned s test) ids
unfolding scan_ids
scan_ids_lem s test ids =
    collect_range-slice (scanned s test) ids 0 (length ids)
    ∙ ap (filter_map (scanned s test)) (take_all ids)

scanned_hit :
    (s : TrackingStore.State) (test : TrackingEvent → Bool) (i : ℕ) (ids : List ℕ)
    (x : TrackingEvent)
    → s.event i ≡ some x
    → test x ≡ true
    → AllFound (λ eid. get_event eid s) (filter_map (scanned s test) ids)
    → filter_map (λ eid. get_event eid s) (filter_map (scanned s test) ids) ≡ history s test ids
    → AllFound (λ eid. get_event eid s) (filter_map (scanned s test) (i ∷ ids))
      × (filter_map (λ eid. get_event eid s) (filter_map (scanned s test) (i ∷ ids))
          ≡ history s test (i ∷ ids))
scanned_hit s test i ids x m t h e =
    let hit : filter_map (scanned s test) (i ∷ ids) ≡ i ∷ filter_map (scanned s test) ids =
      ground (arith, m, t) in
    rw hit (((x, m), h), ground (arith, m, t, e))

scanned_miss :
    (s : TrackingStore.State) (test : TrackingEvent → Bool) (i : ℕ) (ids : List ℕ)
    → scanned s test i ≡ none
    → found s test i ≡ none
    → AllFound (λ eid. get_event eid s) (filter_map (scanned s test) ids)
    → filter_map (λ eid. get_event eid s) (filter_map (scanned s test) ids) ≡ history s test ids
    → AllFound (λ eid. get_event eid s) (filter_map (scanned s test) (i ∷ ids))
      × (filter_map (λ eid. get_event eid s) (filter_map (scanned s test) (i ∷ ids))
          ≡ history s test (i ∷ ids))
scanned_miss s test i ids m n h e =
    let miss : filter_map (scanned s test) (i ∷ ids) ≡ filter_map (scanned s test) ids =
      ground (arith, m) in
    rw miss (h, ground (arith, n, e))

pub scanned-AllFound :
    (s : TrackingStore.State) (test : TrackingEvent → Bool) (ids : List ℕ)
    → AllFound (λ eid. get_event eid s) (filter_map (scanned s test) ids)
      × (filter_map (λ eid. get_event eid s) (filter_map (scanned s test) ids) ≡ history s test ids)
scanned-AllFound s test [] = (tt, refl)
scanned-AllFound s test (i ∷ ids) =
    let (h, e) = scanned-AllFound s test ids in
    elim (Option-cases (s.event i)) [
      | inl m ↦ scanned_miss s test i ids (ground (arith, m)) (ground (arith, m)) h e
      | inr (x, m) ↦ elim (Bool-cases (test x)) [
        | inl t ↦ scanned_hit s test i ids x m t h e
        | inr t ↦ scanned_miss s test i ids (ground (arith, m, t)) (ground (arith, m, t)) h e
      ]
    ]

fetch_page_lem :
    (src : Sources) (ids : List ℕ) (offset limit : ℕ) (s : QueryState)
    → AllFound (λ eid. get_event eid src.tracking) ids
    → length ids + max_page_limit ≤ 4294967295
    → offset < length ids
    → limit ≤ max_page_limit
    → fetch_page src ids offset (min (offset + limit) (length ids)) s
      ≡ (ok (page_of offset limit (filter_map (λ eid. get_event eid src.tracking) ids)), s)
unfolding fetch_page
fetch_page_lem src ids offset limit s h bound o l =
    let get : ℕ → Option TrackingEvent = λ eid. get_event eid src.tracking in
    let rounds = min (offset + limit) (length ids) - offset in
    let events : collect_range get ids offset rounds ≡ slice offset limit (filter_map get ids) =
      collect_range-slice get ids offset rounds
      ∙ ap (filter_map get) (slice-min offset limit ids)
      ∙ filter_map-slice get offset limit ids h in
    let total = length-filter_map get ids h in
    rw events (ground (arith, total, length-slice offset limit (filter_map get ids)))

page_past :
    (src : Sources) (ids : List ℕ) (offset limit : ℕ)
    → AllFound (λ eid. get_event eid src.tracking) ids
    → length ids ≤ offset
    → page_of offset limit (filter_map (λ eid. get_event eid src.tracking) ids)
      ≡ record { events = []; total_count = length ids; has_more = false }
page_past src ids offset limit h o =
    let all = filter_map (λ eid. get_event eid src.tracking) ids in
    let total = length-filter_map (λ eid. get_event eid src.tracking) ids h in
    let past : drop offset all ≡ [] = drop_all all offset (omega (arith, total)) in
    let none_left : slice offset limit all ≡ [] = ap (take limit) past ∙ take_nil limit in
    rw none_left (ground (arith, total))

page_saturating_lem :
    (src : Sources) (ids : List ℕ) (offset limit : ℕ) (s : QueryState)
    → AllFound (λ eid. get_event eid src.tracking) ids
    → length ids + max_page_limit ≤ 4294967295
    → limit ≤ max_page_limit
    → page_saturating src ids offset limit s
      ≡ (ok (page_of offset limit (filter_map (λ eid. get_event eid src.tracking) ids)), s)
unfolding page_saturating
page_saturating_lem src ids offset limit s h bound l = elim (Bool-cases (leb (length ids) offset)) [
  | inl p ↦ rw (page_past src ids offset limit h (ground arith)) (ground arith)
  | inr p ↦
      let same : min (min (offset + limit) 4294967295) (length ids)
          ≡ min (offset + limit) (length ids) =
        ground arith in
      let q = fetch_page_lem src ids offset limit s h bound (ground arith) l in
      ground (arith, same, q)
]

pub page_wrapping_lem :
    (src : Sources) (ids : List ℕ) (offset limit : ℕ) (s : QueryState)
    → AllFound (λ eid. get_event eid src.tracking) ids
    → length ids + max_page_limit ≤ 4294967295
    → limit ≤ max_page_limit
    → page_wrapping src ids offset limit s
      ≡ (ok (page_of offset limit (filter_map (λ eid. get_event eid src.tracking) ids)), s)
unfolding page_wrapping
page_wrapping_lem src ids offset limit s h bound l = elim (Bool-cases (leb (length ids) offset)) [
  | inl p ↦ rw (page_past src ids offset limit h (ground arith)) (ground arith)
  | inr p ↦
      let same : min ((offset + limit) % 4294967296) (length ids)
          ≡ min (offset + limit) (length ids) =
        ground arith in
      let q = fetch_page_lem src ids offset limit s h bound (ground arith) l in
      ground (arith, same, q)
]

-- The queries that a page answers: the query contract is set up, the registry has the product, and
-- its events leave room for a page in a vector.
pub record IsReady (src : Sources) (product_id : String) (s : QueryState) : Type 0 where
  pub registry_set : s.registry_contract ≢ none
  pub tracking_set : s.tracking_contract ≢ none
  pub named : 1 ≤ len product_id
  pub short : len product_id ≤ max_product_id_len
  pub registered : src.has_product product_id ≡ true
  pub fits : length (get_product_event_ids product_id src.tracking) + max_page_limit ≤ 4294967295

pub length-scanned :
    (s : TrackingStore.State) (test : TrackingEvent → Bool) (ids : List ℕ)
    → length (filter_map (scanned s test) ids) ≤ length ids
length-scanned s test [] = omega arith
length-scanned s test (i ∷ ids) = ground (arith, length-scanned s test ids)

pub scan_page_saturating :
    (src : Sources) (test : TrackingEvent → Bool) (ids : List ℕ) (offset limit : ℕ) (s : QueryState)
    → length ids + max_page_limit ≤ 4294967295
    → limit ≤ max_page_limit
    → page_saturating src (scan_ids src.tracking test ids) offset limit s
      ≡ (ok (page_of offset limit (history src.tracking test ids)), s)
scan_page_saturating src test ids offset limit s fits l =
    let (h, e) = scanned-AllFound src.tracking test ids in
    let n = length-scanned src.tracking test ids in
    ap (λ k. page_saturating src k offset limit s) (scan_ids_lem src.tracking test ids)
    ∙ page_saturating_lem src (filter_map (scanned src.tracking test) ids) offset limit s h
        (omega (arith, n)) l
    ∙ ap (λ k. (ok (page_of offset limit k), s)) e

pub scan_page_wrapping :
    (src : Sources) (test : TrackingEvent → Bool) (ids : List ℕ) (offset limit : ℕ) (s : QueryState)
    → length ids + max_page_limit ≤ 4294967295
    → limit ≤ max_page_limit
    → page_wrapping src (scan_ids src.tracking test ids) offset limit s
      ≡ (ok (page_of offset limit (history src.tracking test ids)), s)
scan_page_wrapping src test ids offset limit s fits l =
    let (h, e) = scanned-AllFound src.tracking test ids in
    let n = length-scanned src.tracking test ids in
    ap (λ k. page_wrapping src k offset limit s) (scan_ids_lem src.tracking test ids)
    ∙ page_wrapping_lem src (filter_map (scanned src.tracking test) ids) offset limit s h
        (omega (arith, n)) l
    ∙ ap (λ k. (ok (page_of offset limit k), s)) e
