-- ===== src/Base/Slices.antt =====
-- Parts of vectors: reads by index, index loops over a range, and slices.
use Prim.Native.Nat.{ℕ, zero, suc, ◌+◌, ◌-◌, ◌≤◌, min}
use mathlib.Core.Logic.{inl, inr}
use mathlib.Core.Path.{◌≡◌, refl, ap, ◌∙◌, sym}
use mathlib.Core.Option.{Option, none, some}
use mathlib.Core.List.{List, [], ◌∷◌, ◌++◌}
use native.Mathlib.Omega.{arith}
use chain_logistics.Base.Tests.{◌==◌, Option-cases, if◌then◌else◌}
use chain_logistics.Base.Lists.{length, take, drop, push_back}

module _ {ℓ} {A : Type ℓ} where
  -- `Vec::get`
  abbrev pub get_elem? : List A → ℕ → Option A
  get_elem? [] i = none
  get_elem? (x ∷ xs) zero = some x
  get_elem? (x ∷ xs) (suc i) = get_elem? xs i

  -- At most `limit` members, from `offset` on.
  abbrev pub slice : ℕ → ℕ → List A → List A
  slice offset limit xs = take limit (drop offset xs)

  pub drop-suc :
      (xs : List A) (i : ℕ) (x : A) → get_elem? xs i ≡ some x → drop i xs ≡ x ∷ drop (suc i) xs
  drop-suc [] i x h = absurd (cc)
  drop-suc (y ∷ ys) zero x h = ground arith
  drop-suc (y ∷ ys) (suc i) x h = drop-suc ys i x h

  pub drop_past : (xs : List A) (i : ℕ) → get_elem? xs i ≡ none → drop i xs ≡ []
  drop_past [] zero h = refl
  drop_past [] (suc i) h = refl
  drop_past (y ∷ ys) zero h = absurd (cc)
  drop_past (y ∷ ys) (suc i) h = drop_past ys i h

  pub take_nil : (n : ℕ) → ◌≡◌ {A = List A} (take n []) []
  take_nil zero = refl
  take_nil (suc n) = refl

  pub drop_past_suc : (xs : List A) (i : ℕ) → get_elem? xs i ≡ none → drop (suc i) xs ≡ []
  drop_past_suc [] i h = refl
  drop_past_suc (y ∷ ys) zero h = absurd (cc)
  drop_past_suc (y ∷ ys) (suc i) h = drop_past_suc ys i h

  pub drop_all : (xs : List A) (i : ℕ) → length xs ≤ i → drop i xs ≡ []
  drop_all [] zero h = refl
  drop_all [] (suc i) h = refl
  drop_all (y ∷ ys) zero h = absurd (omega arith)
  drop_all (y ∷ ys) (suc i) h = drop_all ys i (omega arith)

  pub length-slice :
      (offset limit : ℕ) (xs : List A)
      → length (slice offset limit xs) ≡ min limit (length xs - offset)
  length-slice zero zero xs = omega arith
  length-slice zero (suc n) [] = omega arith
  length-slice zero (suc n) (x ∷ xs) = omega (arith, length-slice zero n xs)
  length-slice (suc i) zero [] = omega arith
  length-slice (suc i) (suc n) [] = omega arith
  length-slice (suc i) n (x ∷ xs) = omega (arith, length-slice i n xs)

module _ {A : Type 0} where
  -- Taking more members than there are is taking all of them.
  pub take-min : (n : ℕ) (xs : List A) → take (min n (length xs)) xs ≡ take n xs
  take-min zero xs = ground arith
  take-min (suc n) [] = ground arith
  take-min (suc n) (x ∷ xs) = ground (arith, take-min n xs)

  pub get_elem?-push_back :
      (xs : List A) (x : A) (i : ℕ)
      → get_elem? (push_back xs x) i ≡ (if i == length xs then some x else get_elem? xs i)
  get_elem?-push_back [] x zero = ground arith
  get_elem?-push_back [] x (suc i) = ground arith
  get_elem?-push_back (y ∷ ys) x zero = ground arith
  get_elem?-push_back (y ∷ ys) x (suc i) = ground (arith, get_elem?-push_back ys x i)

module _ {ℓ κ} {A : Type ℓ} {B : Type κ} where
  -- The members that `f` finds something for.
  abbrev pub filter_map : (A → Option B) → List A → List B
  filter_map f [] = []
  filter_map f (x ∷ xs) = elim (f x) [ none ↦ filter_map f xs | some y ↦ y ∷ filter_map f xs ]

  -- `for i in start..start + rounds { if let Some(x) = xs.get(i) { if let Some(y) = f(x) { push(y) } } }`
  abbrev pub collect_range : (A → Option B) → List A → ℕ → ℕ → List B
  collect_range f xs start zero = []
  collect_range f xs start (suc rounds) =
      let rest = collect_range f xs (suc start) rounds in
      elim (get_elem? xs start) [
        | none ↦ rest
        | some x ↦ elim (f x) [ none ↦ rest | some y ↦ y ∷ rest ]
      ]

module _ {A B : Type 0} where
  pub collect_range-slice :
      (f : A → Option B) (xs : List A) (start rounds : ℕ)
      → collect_range f xs start rounds ≡ filter_map f (slice start rounds xs)
  collect_range-slice f xs start zero = refl
  collect_range-slice f xs start (suc n) = elim (Option-cases (get_elem? xs start)) [
    | inl e ↦
        let d = drop_past xs start e in
        let rest =
          collect_range-slice f xs (suc start) n
          ∙ ap (λ l. filter_map f (take n l)) (drop_past_suc xs start e)
          ∙ ap (filter_map f) (take_nil n) in
        let skip : collect_range f xs start (suc n) ≡ collect_range f xs (suc start) n =
          ground (arith, e) in
        skip ∙ rest ∙ sym (ap (λ l. filter_map f (take (suc n) l)) d)
    | inr (x, e) ↦
        let d = drop-suc xs start x e in
        rw d (ground (arith, collect_range-slice f xs (suc start) n))
  ]

  -- `f` finds something for every member.
  abbrev pub AllFound : (A → Option B) → List A → Type 0
  AllFound f [] = Unit
  AllFound f (x ∷ xs) = ((y : B) × (f x ≡ some y)) × AllFound f xs

  pub length-filter_map :
      (f : A → Option B) (xs : List A) → AllFound f xs → length (filter_map f xs) ≡ length xs
  length-filter_map f [] h = refl
  length-filter_map f (x ∷ xs) ((y, e), h) = ground (arith, e, length-filter_map f xs h)

  filter_map-take :
      (f : A → Option B) (n : ℕ) (xs : List A)
      → AllFound f xs
      → filter_map f (take n xs) ≡ take n (filter_map f xs)
  filter_map-take f zero xs h = refl
  filter_map-take f (suc n) [] h = refl
  filter_map-take f (suc n) (x ∷ xs) ((y, e), h) = ground (arith, e, filter_map-take f n xs h)

  pub filter_map-slice :
      (f : A → Option B) (i n : ℕ) (xs : List A)
      → AllFound f xs
      → filter_map f (slice i n xs) ≡ slice i n (filter_map f xs)
  filter_map-slice f zero n xs h = filter_map-take f n xs h
  filter_map-slice f (suc i) zero [] h = refl
  filter_map-slice f (suc i) (suc n) [] h = refl
  filter_map-slice f (suc i) n (x ∷ xs) ((y, e), h) =
      filter_map-slice f i n xs h ∙ ground (arith, e)

module _ {A : Type 0} where
  pub take_all : (xs : List A) → take (length xs) xs ≡ xs
  take_all [] = refl
  take_all (x ∷ xs) = ap (◌∷◌ x) (take_all xs)

  pub slice-min : (i n : ℕ) (xs : List A) → slice i (min (i + n) (length xs) - i) xs ≡ slice i n xs
  slice-min zero n xs = ap (λ k. take k xs) (omega arith) ∙ take-min n xs
  slice-min (suc i) zero [] = ground arith
  slice-min (suc i) (suc n) [] = ground arith
  slice-min (suc i) n (x ∷ xs) = ap (λ k. slice i k xs) (omega arith) ∙ slice-min i n xs

  pub take-drop : (n : ℕ) (xs : List A) → take n xs ++ drop n xs ≡ xs
  take-drop zero xs = refl
  take-drop (suc n) [] = refl
  take-drop (suc n) (x ∷ xs) = ap (◌∷◌ x) (take-drop n xs)

  pub drop-drop : (i n : ℕ) (xs : List A) → drop n (drop i xs) ≡ drop (i + n) xs
  drop-drop zero n xs = ap (λ k. drop k xs) (omega arith)
  drop-drop (suc i) zero [] = ground arith
  drop-drop (suc i) (suc n) [] = sym (drop_all [] (suc i + suc n) (omega arith))
  drop-drop (suc i) n (x ∷ xs) =
      let e : suc (i + n) ≡ suc i + n = omega arith in
      drop-drop i n xs ∙ ap (λ k. drop k (x ∷ xs)) e

  -- A slice and what comes after it are what there is from its start on.
  pub slice-drop :
      (i n : ℕ) (xs : List A) → slice i n xs ++ drop (min (i + n) (length xs)) xs ≡ drop i xs
  slice-drop i n xs =
      ap (λ r. slice i n xs ++ r) (drop_min (i + n) xs ∙ sym (drop-drop i n xs))
      ∙ take-drop n (drop i xs)
    where
      drop_min : (k : ℕ) (ys : List A) → drop (min k (length ys)) ys ≡ drop k ys
      drop_min zero ys = let e : min 0 (length ys) ≡ 0 = omega arith in ap (λ j. drop j ys) e
      drop_min (suc k) [] = let e : min (suc k) 0 ≡ 0 = omega arith in ap (λ j. drop {A = A} j []) e
      drop_min (suc k) (y ∷ ys) =
          let e : min (suc k) (suc (length ys)) ≡ suc (min k (length ys)) = omega arith in
          ap (λ j. drop j (y ∷ ys)) e ∙ drop_min k ys
