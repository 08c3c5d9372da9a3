-- ===== src/Oracle/Sorting.antt =====
-- `insert_sorted` of oracle.rs sorts.
use chain_logistics.Base.{
  ◌≡◌, refl, ap, sym, subst, inl, inr, true, false, List, [], ◌∷◌, ◌++◌, arith, Bool-cases,
}
use mathlib.Core.List.{Perm, perm_middle}
use mathlib.Core.List.Perm
use chain_logistics.Base.Int.{ℤ, ◌≤ℤ◌, ltb_ℤ}
use chain_logistics.Oracle.Median.{insert_loop, insert_sorted}

-- The vector that the loops build: `for v in values { insert_sorted(&mut sorted, v) }`.
abbrev pub sort_into : List ℤ → List ℤ → List ℤ
sort_into sorted [] = sorted
sort_into sorted (v ∷ values) = sort_into (insert_sorted sorted v) values

abbrev pub IsBelow : ℤ → List ℤ → Type 0
IsBelow a [] = Unit
IsBelow a (x ∷ xs) = (a ≤ℤ x) × IsBelow a xs

abbrev pub IsSorted : List ℤ → Type 0
IsSorted [] = Unit
IsSorted (x ∷ xs) = IsBelow x xs × IsSorted xs

insert_loop-done : (v : ℤ) (xs : List ℤ) → insert_loop v true xs ≡ xs
unfolding insert_loop
insert_loop-done v [] = refl
insert_loop-done v (x ∷ xs) = ap (◌∷◌ x) (insert_loop-done v xs)

insert_front : (v x : ℤ) (xs : List ℤ) → ltb_ℤ v x ≡ true → insert_sorted (x ∷ xs) v ≡ v ∷ x ∷ xs
unfolding insert_sorted
insert_front v x xs h = ground (arith, h, insert_loop-done v xs)

insert_after :
    (v x : ℤ) (xs : List ℤ) → ltb_ℤ v x ≡ false → insert_sorted (x ∷ xs) v ≡ x ∷ insert_sorted xs v
unfolding insert_sorted
insert_after v x xs h = ground (arith, h)

IsBelow-insert : (a v : ℤ) (xs : List ℤ) → a ≤ℤ v → IsBelow a xs → IsBelow a (insert_sorted xs v)
unfolding insert_sorted
IsBelow-insert a v [] h b = (h, tt)
IsBelow-insert a v (x ∷ xs) h (k, b) = elim (Bool-cases (ltb_ℤ v x)) [
  | inl t ↦ subst (IsBelow a) (sym (insert_front v x xs t)) (h, (k, b))
  | inr t ↦ subst (IsBelow a) (sym (insert_after v x xs t)) (k, IsBelow-insert a v xs h b)
]

IsBelow-trans : (a b : ℤ) (xs : List ℤ) → a ≤ℤ b → IsBelow b xs → IsBelow a xs
IsBelow-trans a b [] h k = tt
IsBelow-trans a b (x ∷ xs) h (k, ks) = (omega (arith, h, k), IsBelow-trans a b xs h ks)

pub insert_sorted-IsSorted : (v : ℤ) (xs : List ℤ) → IsSorted xs → IsSorted (insert_sorted xs v)
unfolding insert_sorted
insert_sorted-IsSorted v [] s = (tt, tt)
insert_sorted-IsSorted v (x ∷ xs) (b, s) = elim (Bool-cases (ltb_ℤ v x)) [
  | inl t ↦
      let h : v ≤ℤ x = ground (arith, t) in
      subst IsSorted (sym (insert_front v x xs t)) ((h, IsBelow-trans v x xs h b), (b, s))
  | inr t ↦
      let h : x ≤ℤ v = ground (arith, t) in
      subst IsSorted (sym (insert_after v x xs t))
        (IsBelow-insert x v xs h b, insert_sorted-IsSorted v xs s)
]

pub insert_sorted-perm : (v : ℤ) (xs : List ℤ) → Perm (insert_sorted xs v) (v ∷ xs)
unfolding insert_sorted
insert_sorted-perm v [] = Perm.rfl
insert_sorted-perm v (x ∷ xs) = elim (Bool-cases (ltb_ℤ v x)) [
  | inl t ↦ subst (λ l. Perm l (v ∷ x ∷ xs)) (sym (insert_front v x xs t)) Perm.rfl
  | inr t ↦
      subst (λ l. Perm l (v ∷ x ∷ xs)) (sym (insert_after v x xs t))
        (Perm.trans (Perm.cons x (insert_sorted-perm v xs)) (Perm.swap v x xs))
]

-- Among the values that are in order there are as many of each kind as before.
pub sort_into-IsSorted :
    (sorted values : List ℤ) → IsSorted sorted → IsSorted (sort_into sorted values)
sort_into-IsSorted sorted [] s = s
sort_into-IsSorted sorted (v ∷ values) s =
    sort_into-IsSorted (insert_sorted sorted v) values (insert_sorted-IsSorted v sorted s)

pub sort_into-perm : (sorted values : List ℤ) → Perm (sort_into sorted values) (values ++ sorted)
sort_into-perm sorted [] = Perm.rfl
sort_into-perm sorted (v ∷ values) =
    Perm.trans (sort_into-perm (insert_sorted sorted v) values) (
      Perm.trans (Perm.append_left values (insert_sorted-perm v sorted))
        (perm_middle values sorted))

++_nil : (xs : List ℤ) → xs ++ [] ≡ xs
++_nil [] = refl
++_nil (x ∷ xs) = ap (◌∷◌ x) (++_nil xs)

-- Putting the values in one after another, as the loops do, sorts them: the result is in ascending order and a
-- permutation of the values.
pub insert_sorted_lem :
    (values : List ℤ) → IsSorted (sort_into [] values) × Perm (sort_into [] values) values
insert_sorted_lem values = (
  sort_into-IsSorted [] values tt,
  subst (Perm (sort_into [] values)) (++_nil values) (sort_into-perm [] values),
)
