-- ===== src/Tracking/State.antt =====
-- The storage of tracking.rs: events and their indexes, by the functions of storage_contract.rs.
use chain_logistics.Base.{
  ℕ, zero, suc, ◌-◌, min, ◌&&◌, ◌||◌, Option, none, some, String, List, [], ◌∷◌, ltb, leb, ◌==◌,
  str_eq, if◌then◌else◌, length, collect_range, ◌%◌,
}
use chain_logistics.Host.Errors.{Error}
use chain_logistics.Host.Call.{
  Address, Symbol, Bytes, Call, ok, err, trap, add_u64, ◌>>=◌, ◌>>◌, pure, ok_or, gets, modify,
  checked_add_u64, Storage, put, Keyed, put_at, unwrap_or,
}

pub record TrackingEvent : Type 0 where
  pub event_id : ℕ
  pub product_id : String
  pub actor : Address
  pub timestamp : ℕ
  pub event_type : Symbol
  pub location : String
  pub data_hash : Bytes
  pub note : String
  pub metadata : List (Symbol × String)

pub data TrackingLog : Type 0 where
  tracking_event_published : String → ℕ → TrackingEvent → TrackingLog

pub record State : Type 0 where
  pub main_contract : Option Address
  pub event : Storage TrackingEvent
  pub event_seq : Option ℕ
  pub product_event_ids : Keyed (List ℕ)
  pub type_index : String → Symbol → ℕ → Option ℕ
  pub type_count : String → Symbol → Option ℕ
  pub log : List TrackingLog

abbrev pub empty : State
empty = record {
  main_contract = none;
  event = λ _. none;
  event_seq = none;
  product_event_ids = λ _. none;
  type_index = λ _ _ _. none;
  type_count = λ _ _. none;
  log = [];
}

abbrev pub put_event : TrackingEvent → State → State
put_event e s = record s { event = put e.event_id e s.event }

abbrev pub get_event : ℕ → State → Option TrackingEvent
get_event event_id s = s.event event_id

abbrev pub get_product_event_ids : String → State → List ℕ
get_product_event_ids product_id s = unwrap_or (s.product_event_ids product_id) []

abbrev pub put_product_event_ids : String → List ℕ → State → State
put_product_event_ids product_id ids s = record s {
  product_event_ids = put_at product_id ids s.product_event_ids;
}

unfoldable pub next_event_id : Call State ℕ
next_event_id = do
  seq ← gets (λ s. unwrap_or s.event_seq 0)
  next ← ok_or (checked_add_u64 seq 1) Error.arithmetic_overflow
  modify (λ s. record s { event_seq = some next })
  pure next

abbrev pub get_event_count_by_type : String → Symbol → State → ℕ
get_event_count_by_type product_id event_type s = unwrap_or (s.type_count product_id event_type) 0

abbrev pub set_type_index : String → Symbol → ℕ → ℕ → State → State
set_type_index product_id event_type i event_id s = record s {
  type_index = λ p t j.
      if str_eq product_id p && (str_eq event_type t && i == j)
      then some event_id
      else s.type_index p t j;
}

abbrev pub set_type_count : String → Symbol → ℕ → State → State
set_type_count product_id event_type n s = record s {
  type_count =
      λ p t. if str_eq product_id p && str_eq event_type t then some n else s.type_count p t;
}

unfoldable pub index_event_by_type : String → Symbol → ℕ → Call State (Unit {0})
index_event_by_type product_id event_type event_id = do
  count ← gets (get_event_count_by_type product_id event_type)
  modify (set_type_index product_id event_type count event_id)
  next ← ok_or (checked_add_u64 count 1) Error.arithmetic_overflow
  modify (set_type_count product_id event_type next)

-- `for i in start..end { if let Some(id) = get(index_key(i)) { result.push_back(id) } }`
unfoldable pub read_index : (ℕ → Option ℕ) → ℕ → ℕ → List ℕ
read_index index start zero = []
read_index index start (suc rounds) =
    let rest = read_index index (suc start) rounds in
    elim (index start) [ none ↦ rest | some id ↦ id ∷ rest ]

unfoldable pub get_event_ids_by_type : String → Symbol → ℕ → ℕ → Call State (List ℕ)
get_event_ids_by_type product_id event_type offset limit s =
    let total = get_event_count_by_type product_id event_type s in
    let (sum, _) = add_u64 offset limit s in
    if leb total offset then (ok [], s) else elim sum [
      | ok end ↦
          (ok (read_index (s.type_index product_id event_type) offset (min end total - offset)), s)
      | err e ↦ (err e, s)
      | trap ↦ (trap, s)
    ]

-- `(offset + limit) as u32` keeps the low 32 bits.
unfoldable pub get_product_event_ids_paginated : String → ℕ → ℕ → Call State (List ℕ)
get_product_event_ids_paginated product_id offset limit s =
    let all_ids = get_product_event_ids product_id s in
    let (sum, _) = add_u64 offset limit s in
    if limit == 0 || ltb 1000 limit
    then (ok [], s)
    else if leb (length all_ids) offset
    then (ok [], s)
    else elim sum [
      | ok end ↦ (
        ok (collect_range some all_ids offset (min (end % 4294967296) (length all_ids) - offset)),
        s,
      )
      | err e ↦ (err e, s)
      | trap ↦ (trap, s)
    ]
