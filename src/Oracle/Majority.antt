-- ===== src/Oracle/Majority.antt =====
-- What most reporters say bounds the median (oracle.rs).
use chain_logistics.Base.{
  ℕ, zero, suc, ◌+◌, ◌-◌, ◌*◌, ◌/◌, ◌%◌, ◌≤◌, ◌<◌, ◌≡◌, refl, ap, ◌∙◌, sym, subst, inl, inr, Bool,
  true, false, ◌&&◌, Option, none, some, List, [], ◌∷◌, arith, length, get_elem?, ◌==◌, Bool-cases,
  Option-cases, if◌then◌else◌,
}
use chain_logistics.Base.Int.{ℤ, pos, negsuc, ◌+ℤ◌, ◌≤ℤ◌, leb_ℤ, ltb_ℤ, halve, halve_between}
use chain_logistics.Host.Call.{Call, Outcome, ok, trap, ◌>>=◌, pure, bind_ok}
use chain_logistics.Oracle.Median.{
  insert_sorted, insert_loop, median, mean_of_two, get_unchecked, checked_i128,
}
use chain_logistics.Oracle.Sorting.{IsBelow, IsSorted, sort_into, sort_into-IsSorted}

abbrev pub is_between : ℤ → ℤ → ℤ → Bool
is_between a b x = leb_ℤ a x && leb_ℤ x b

abbrev pub IsBetween : ℤ → ℤ → ℤ → Type 0
IsBetween a b x = (a ≤ℤ x) × (x ≤ℤ b)

abbrev pub AllBetween : ℤ → ℤ → List ℤ → Type 0
AllBetween a b [] = Unit
AllBetween a b (x ∷ xs) = IsBetween a b x × AllBetween a b xs

-- The number of values from `a` to `b`.
abbrev pub count_between : ℤ → ℤ → List ℤ → ℕ
count_between a b [] = 0
count_between a b (x ∷ xs) = (if is_between a b x then 1 else 0) + count_between a b xs

count_between-le-length : (a b : ℤ) (xs : List ℤ) → count_between a b xs ≤ length xs
count_between-le-length a b [] = omega arith
count_between-le-length a b (x ∷ xs) = ground (arith, count_between-le-length a b xs)

IsBelow-get :
    (a : ℤ) (xs : List ℤ) (i : ℕ) (x : ℤ) → IsBelow a xs → get_elem? xs i ≡ some x → a ≤ℤ x
IsBelow-get a [] i x h e = absurd (cc)
IsBelow-get a (y ∷ ys) zero x (h, _) e = ground (arith, h, e)
IsBelow-get a (y ∷ ys) (suc i) x (_, h) e = IsBelow-get a ys i x h e

-- All before a value that is too small are too small.
too_small :
    (a b : ℤ) (xs : List ℤ) (i : ℕ) (x : ℤ)
    → IsSorted xs
    → get_elem? xs i ≡ some x
    → ltb_ℤ x a ≡ true
    → count_between a b xs + i + 1 ≤ length xs
too_small a b [] i x s e h = absurd (cc)
too_small a b (y ∷ ys) zero x s e h = ground (arith, e, h, count_between-le-length a b ys)
too_small a b (y ∷ ys) (suc i) x (k, s) e h =
    ground (arith, h, IsBelow-get y ys i x k e, too_small a b ys i x s e h)

none_between :
    (a b y : ℤ) (ys : List ℤ) → IsBelow y ys → ltb_ℤ b y ≡ true → count_between a b ys ≡ 0
none_between a b y [] k h = refl
none_between a b y (z ∷ zs) (k, ks) h = ground (arith, h, k, none_between a b y zs ks h)

-- All after a value that is too large are too large.
too_large :
    (a b : ℤ) (xs : List ℤ) (i : ℕ) (x : ℤ)
    → IsSorted xs
    → get_elem? xs i ≡ some x
    → ltb_ℤ b x ≡ true
    → count_between a b xs ≤ i
too_large a b [] i x s e h = absurd (cc)
too_large a b (y ∷ ys) zero x (k, s) e h =
    let yx : y ≡ x = ground (arith, e) in
    let hy : ltb_ℤ b y ≡ true = ap (ltb_ℤ b) yx ∙ h in
    ground (arith, hy, none_between a b y ys k hy)
too_large a b (y ∷ ys) (suc i) x (_, s) e h = ground (arith, too_large a b ys i x s e h)

in_order :
    (xs : List ℤ) (i : ℕ) (x y : ℤ)
    → IsSorted xs
    → get_elem? xs i ≡ some x
    → get_elem? xs (suc i) ≡ some y
    → x ≤ℤ y
in_order [] i x y s e f = absurd (cc)
in_order (z ∷ zs) zero x y (k, s) e f = ground (arith, e, IsBelow-get z zs 0 y k f)
in_order (z ∷ zs) (suc i) x y (_, s) e f = in_order zs i x y s e f

-- A value at an index that neither too few nor too many precede.
central :
    (a b : ℤ) (xs : List ℤ) (i : ℕ) (x : ℤ)
    → IsSorted xs
    → get_elem? xs i ≡ some x
    → length xs ≤ count_between a b xs + i
    → i < count_between a b xs
    → IsBetween a b x
central a b xs i x s e few many = elim (Bool-cases (ltb_ℤ x a)) [
  | inl t ↦ absurd (omega (arith, too_small a b xs i x s e t))
  | inr t ↦ elim (Bool-cases (ltb_ℤ b x)) [
    | inl u ↦ absurd (omega (arith, too_large a b xs i x s e u))
    | inr u ↦ (ground (arith, t), ground (arith, u))
  ]
]

pub count_between-insert_loop :
    (a b v : ℤ) (inserted : Bool) (xs : List ℤ)
    → (count_between a b (insert_loop v inserted xs)
        ≡ (if inserted then 0 else (if is_between a b v then 1 else 0)) + count_between a b xs)
      × (length (insert_loop v inserted xs) ≡ (if inserted then 0 else 1) + length xs)
unfolding insert_loop
count_between-insert_loop a b v true [] = (omega arith, omega arith)
count_between-insert_loop a b v false [] = (omega arith, omega arith)
count_between-insert_loop a b v true (x ∷ xs) =
    let (c, l) = count_between-insert_loop a b v true xs in (omega (arith, c), omega (arith, l))
count_between-insert_loop a b v false (x ∷ xs) = elim (Bool-cases (ltb_ℤ v x)) [
  | inl t ↦
      let (c, l) = count_between-insert_loop a b v true xs in
      (ground (arith, t, c), ground (arith, t, l))
  | inr t ↦
      let (c, l) = count_between-insert_loop a b v false xs in
      (ground (arith, t, c), ground (arith, t, l))
]

count_between-sort_into :
    (a b : ℤ) (sorted values : List ℤ)
    → (count_between a b (sort_into sorted values)
        ≡ count_between a b values + count_between a b sorted)
      × (length (sort_into sorted values) ≡ length values + length sorted)
unfolding insert_sorted
count_between-sort_into a b sorted [] = (omega arith, omega arith)
count_between-sort_into a b sorted (v ∷ values) =
    let (c, l) = count_between-sort_into a b (insert_sorted sorted v) values in
    let (c', l') = count_between-insert_loop a b v false sorted in
    (omega (arith, c, c'), omega (arith, l, l'))

module _ {S : Type 0} (s : S) where
  got :
      (o : Option ℤ) (x : ℤ)
      → o ≡ some x
      → ◌≡◌ {A = Outcome ℤ × S} (elim o [ none ↦ (trap, s) | some v ↦ (ok v, s) ]) (ok x, s)
  got o x e = ground (arith, e)

  halved :
      (z m : ℤ) → ((checked_i128 {S = S} z >>= λ sum. pure (halve sum)) s).0 ≡ ok m → halve z ≡ m
  halved (pos n) m h = ground (arith, h)
  halved (negsuc n) m h = ground (arith, h)

  mean_value :
      (x y m : ℤ) (xs : List ℤ) (i j : ℕ)
      → get_elem? xs i ≡ some x
      → get_elem? xs (suc i) ≡ some y
      → suc i ≡ j
      → (mean_of_two xs j s).0 ≡ ok m
      → halve (x +ℤ y) ≡ m
  mean_value x y m xs i j ex ey e h =
      let back : j - 1 ≡ i = omega (arith, e) in
      let left : get_unchecked xs (j - 1) s ≡ (ok x, s) =
        got (get_elem? xs (j - 1)) x (ap (get_elem? xs) back ∙ ex) in
      let right : get_unchecked xs j s ≡ (ok y, s) =
        got (get_elem? xs j) y (ap (get_elem? xs) (sym e) ∙ ey) in
      let sum : Call S ℤ = checked_i128 (x +ℤ y) >>= λ z. pure (halve z) in
      let reads : mean_of_two xs j s ≡ sum s =
        bind_ok (get_unchecked xs (j - 1))
          (λ l. get_unchecked xs j >>= λ r. checked_i128 (l +ℤ r) >>= λ z. pure (halve z)) s s left
        ∙ bind_ok (get_unchecked xs j) (λ r. checked_i128 (x +ℤ r) >>= λ z. pure (halve z)) s s
            right in
      halved (x +ℤ y) m (sym (ap (λ z. z.0) reads) ∙ h)

  mean-IsBetween :
      (a b m : ℤ) (xs : List ℤ) (i j : ℕ)
      → IsSorted xs
      → length xs ≤ count_between a b xs + i
      → j < count_between a b xs
      → suc i ≡ j
      → (mean_of_two xs j s).0 ≡ ok m
      → IsBetween a b m
  mean-IsBetween a b m xs i j sorted few many e h = elim (Option-cases (get_elem? xs i)) [
    | inl n ↦ absurd (ground (arith, n, e, h))
    | inr (x, ex) ↦ elim (Option-cases (get_elem? xs (suc i))) [
      | inl n ↦ absurd (ground (arith, n, e, ex, h))
      | inr (y, ey) ↦
          let (_, y_high) =
            central a b xs (suc i) y sorted ey (omega (arith, few)) (omega (arith, e, many)) in
          let (x_low, _) = central a b xs i x sorted ex few (omega (arith, e, many)) in
          let (l, u) = halve_between x y (in_order xs i x y sorted ex ey) in
          let mean : halve (x +ℤ y) ≡ m = mean_value x y m xs i j ex ey e h in
          subst (IsBetween a b) mean (omega (arith, l, x_low), omega (arith, u, y_high))
    ]
  ]

  -- The median of sorted values lies where more than half of them lie.
  pub median-IsBetween :
      (a b m : ℤ) (xs : List ℤ)
      → IsSorted xs
      → length xs < 2 * count_between a b xs
      → (median xs s).0 ≡ ok m
      → IsBetween a b m
  unfolding median
  median-IsBetween a b m xs sorted most h =
      let mid = length xs / 2 in
      elim (Bool-cases (length xs % 2 == 1)) [
        | inl odd ↦ elim (Option-cases (get_elem? xs mid)) [
          | inl e ↦ absurd (ground (arith, odd, e, h))
          | inr (x, e) ↦
              let xm : x ≡ m = ground (arith, odd, e, h) in
              subst (IsBetween a b) xm (
                central a b xs mid x sorted e (ground (arith, odd, most))
                  (ground (arith, odd, most)))
        ]
        | inr even ↦
            let few = count_between-le-length a b xs in
            let some_mid : suc (mid - 1) ≡ mid = ground (arith, even, most, few) in
            let two : mean_of_two xs mid s ≡ median xs s = ground (arith, even, some_mid) in
            mean-IsBetween a b m xs (mid - 1) mid sorted (ground (arith, even, most))
              (ground (arith, even, most)) some_mid (ap (λ z. z.0) two ∙ h)
      ]

-- Where more than half of the values lie from `a` to `b`, their median does, if it is computed without
-- an overflow: fewer than half of the reporters cannot move it out of the range of the others.
pub median_majority :
    {S : Type 0} (s : S) (a b m : ℤ) (values : List ℤ)
    → length values < 2 * count_between a b values
    → (median (sort_into [] values) s).0 ≡ ok m
    → (a ≤ℤ m) × (m ≤ℤ b)
median_majority s a b m values most h =
    let (c, l) = count_between-sort_into a b [] values in
    median-IsBetween s a b m (sort_into [] values) (sort_into-IsSorted [] values tt)
      (omega (arith, c, l, most)) h

all_between : (a b : ℤ) (xs : List ℤ) → AllBetween a b xs → count_between a b xs ≡ length xs
all_between a b [] h = refl
all_between a b (x ∷ xs) ((l, u), h) = ground (arith, l, u, all_between a b xs h)

-- So a range that all values keep to.
pub median_of_AllBetween :
    {S : Type 0} (s : S) (a b m : ℤ) (values : List ℤ)
    → AllBetween a b values
    → (median (sort_into [] values) s).0 ≡ ok m
    → IsBetween a b m
unfolding median
median_of_AllBetween s a b m [] all h = absurd (ground (arith, h))
median_of_AllBetween s a b m (v ∷ values) all h =
    median_majority s a b m (v ∷ values) (omega (arith, all_between a b (v ∷ values) all)) h
