-- ===== src/Oracle/Median.antt =====
-- The numeric helpers of oracle.rs, on `i128` with overflow checks on.
use chain_logistics.Base.{
  ℕ, ◌-◌, ◌/◌, ◌%◌, Bool, false, not, ◌&&◌, ◌||◌, none, some, List, [], ◌∷◌, ◌==◌, if◌then◌else◌,
  length, get_elem?,
}
use chain_logistics.Base.Int.{
  ℤ, pos, ◌+ℤ◌, ◌-ℤ◌, ◌/ℤ◌, neg, halve, ltb_ℤ, eqb_ℤ, is_i128, saturating_mul, to_u32,
}
use chain_logistics.Host.Call.{Call, ok, trap, ◌>>=◌, pure}

-- The loop of `insert_sorted`, with whether the value has been put in.
unfoldable pub insert_loop : ℤ → Bool → List ℤ → List ℤ
insert_loop value inserted [] = if inserted then [] else value ∷ []
insert_loop value inserted (existing ∷ values) =
    let now = not inserted && ltb_ℤ value existing in
    let rest = insert_loop value (inserted || now) values in
    if now then value ∷ existing ∷ rest else existing ∷ rest

unfoldable pub insert_sorted : List ℤ → ℤ → List ℤ
unfolding insert_loop
insert_sorted values value = insert_loop value false values

module _ {S : Type 0} where
  -- `values.get_unchecked(i)`
  abbrev pub get_unchecked : List ℤ → ℕ → Call S ℤ
  get_unchecked values i s = elim (get_elem? values i) [ none ↦ (trap, s) | some v ↦ (ok v, s) ]

  -- An arithmetic result, which must be in range.
  abbrev pub checked_i128 : ℤ → Call S ℤ
  checked_i128 a s = (if is_i128 a then ok a else trap, s)

  abbrev pub mean_of_two : List ℤ → ℕ → Call S ℤ
  mean_of_two values mid = do
    left ← get_unchecked values (mid - 1)
    right ← get_unchecked values mid
    sum ← checked_i128 (left +ℤ right)
    pure (halve sum)

  unfoldable pub median : List ℤ → Call S ℤ
  median values s =
      let mid = length values / 2 in
      if length values % 2 == 1
      then get_unchecked values mid s
      else if mid == 0
      then (trap, s)
      else mean_of_two values mid s

  abbrev pub abs_i128 : ℤ → Call S ℤ
  abs_i128 value = if ltb_ℤ value (pos 0) then checked_i128 (neg value) else pure value

  unfoldable pub deviation_bps : ℤ → ℤ → Call S ℕ
  deviation_bps value reference =
      if eqb_ℤ reference (pos 0) then pure (if eqb_ℤ value (pos 0) then 0 else 4294967295) else do
        difference ← checked_i128 (value -ℤ reference)
        distance ← abs_i128 difference
        let numerator = saturating_mul distance 10000
        denominator ← abs_i128 reference
        pure (to_u32 (numerator /ℤ denominator))
