-- ===== src/Main/Pages.antt =====
-- The pages that contract.rs answers from a list of numbers.
use chain_logistics.Base.{
  ℕ, ◌+◌, ◌-◌, ◌%◌, ◌≤◌, ◌≡◌, ap, ◌∙◌, min, false, Option, List, arith, length, slice, filter_map,
  collect_range, collect_range-slice, AllFound, length-filter_map, filter_map-slice, length-slice,
  take, take_all, slice-min,
}
use chain_logistics.Host.Call.{ok}
use chain_logistics.Tracking.State.{TrackingEvent, get_event}
use chain_logistics.Tracking.Pages.{page_of}
use chain_logistics.Main.State.{State}
use chain_logistics.Main.Queries.{page_of_ids, page_of_matching}

-- The events of the numbers `ids[start..end]`, where `end` is a sum cut at the length.
fetched :
    (s : State) (ids : List ℕ) (start limit : ℕ)
    → AllFound (λ eid. get_event eid s.events) ids
    → collect_range
        (λ eid. get_event eid s.events)
        ids
        start
        (min (start + limit) (length ids) - start)
      ≡ slice start limit (filter_map (λ eid. get_event eid s.events) ids)
fetched s ids start limit h =
    let get : ℕ → Option TrackingEvent = λ eid. get_event eid s.events in
    collect_range-slice get ids start (min (start + limit) (length ids) - start)
    ∙ ap (filter_map get) (slice-min start limit ids)
    ∙ filter_map-slice get start limit ids h

pub page_of_ids_lem :
    (s : State) (ids : List ℕ) (offset limit : ℕ)
    → AllFound (λ eid. get_event eid s.events) ids
    → offset + limit ≤ 18446744073709551615
    → page_of_ids (slice offset limit ids) offset (length ids) s
      ≡ (ok (page_of offset limit (filter_map (λ eid. get_event eid s.events) ids)), s)
unfolding page_of_ids
page_of_ids_lem s ids offset limit h fits =
    let get : ℕ → Option TrackingEvent = λ eid. get_event eid s.events in
    let sl = slice offset limit ids in
    let whole : length sl - 0 ≡ length sl = omega arith in
    let events : collect_range get sl 0 (length sl - 0) ≡ slice offset limit (filter_map get ids) =
      collect_range-slice get sl 0 (length sl - 0)
      ∙ ap (λ m. filter_map get (take m sl)) whole
      ∙ ap (filter_map get) (take_all sl)
      ∙ filter_map-slice get offset limit ids h in
    let n = length-slice offset limit ids in
    let total = length-filter_map get ids h in rw events (ground (arith, n, total))

pub page_of_matching_lem :
    (s : State) (ids : List ℕ) (offset limit : ℕ)
    → AllFound (λ eid. get_event eid s.events) ids
    → offset + limit ≤ 4294967295
    → page_of_matching ids offset limit s
      ≡ (ok (page_of offset limit (filter_map (λ eid. get_event eid s.events) ids)), s)
unfolding page_of_matching
page_of_matching_lem s ids offset limit h fits =
    let get : ℕ → Option TrackingEvent = λ eid. get_event eid s.events in
    let events = fetched s ids offset limit h in
    let start : offset % 4294967296 ≡ offset = ground arith in
    let end : min (min (offset + limit) 4294967295) (length ids)
        ≡ min (offset + limit) (length ids) =
      ground arith in
    let n = length-slice offset limit (filter_map get ids) in
    let total = length-filter_map get ids h in
    let read : collect_range get ids (offset % 4294967296)
          (min (min (offset + limit) 4294967295) (length ids) - offset % 4294967296)
        ≡ slice offset limit (filter_map get ids) =
      rw start (rw end events) in
    ground (arith, read, n, total)

-- At an offset of 2^32 or more the loop starts at the low 32 bits and ends at the last number.
pub page_of_matching_past :
    (s : State) (ids : List ℕ) (k limit : ℕ)
    → AllFound (λ eid. get_event eid s.events) ids
    → k ≤ 4294967295
    → length ids ≤ 4294967295
    → limit ≤ 4294967295
    → page_of_matching ids (4294967296 + k) limit s ≡ (
      ok (record {
        events = slice k (length ids) (filter_map (λ eid. get_event eid s.events) ids);
        total_count = length ids;
        has_more = false;
      }),
      s,
    )
unfolding page_of_matching
page_of_matching_past s ids k limit h small few l =
    let get : ℕ → Option TrackingEvent = λ eid. get_event eid s.events in
    let events = fetched s ids k (length ids) h in
    let start : (4294967296 + k) % 4294967296 ≡ k = ground arith in
    let end : min (min (4294967296 + k + limit) 4294967295) (length ids)
        ≡ min (k + length ids) (length ids) =
      ground arith in
    let n = length-slice k (length ids) (filter_map get ids) in
    let total = length-filter_map get ids h in
    let read : collect_range get ids ((4294967296 + k) % 4294967296) (
          min (min (4294967296 + k + limit) 4294967295) (length ids)
          - (4294967296 + k) % 4294967296)
        ≡ slice k (length ids) (filter_map get ids) =
      rw start (rw end events) in
    ground (arith, read, n, total)
