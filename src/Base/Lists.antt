-- ===== src/Base/Lists.antt =====
-- Lists of native numbers as sets of addresses: membership, repetition and inclusion.
use Prim.Native.Nat.{ℕ, zero, suc, ◌+◌, ◌≤◌}
use mathlib.Core.Logic.{◌↔◌}
use mathlib.Core.Path.{◌≡◌, refl}
use mathlib.Core.Bool.{Bool, true, false, ◌||◌}
use mathlib.Core.List.{List, [], ◌∷◌, ◌++◌}
use native.Mathlib.Omega.{arith}
use chain_logistics.Base.Tests.{◌==◌, if◌then◌else◌}

module _ {ℓ} {A : Type ℓ} where
  abbrev pub length : List A → ℕ
  length [] = 0
  length (x ∷ xs) = suc (length xs)

  -- `Vec::push_back`
  abbrev pub push_back : List A → A → List A
  push_back xs x = xs ++ x ∷ []

  abbrev pub take : ℕ → List A → List A
  take zero xs = []
  take (suc n) [] = []
  take (suc n) (x ∷ xs) = x ∷ take n xs

  abbrev pub drop : ℕ → List A → List A
  drop zero xs = xs
  drop (suc n) [] = []
  drop (suc n) (x ∷ xs) = drop n xs

  pub length-push_back : (xs : List A) (x : A) → length (push_back xs x) ≡ length xs + 1
  length-push_back [] x = omega arith
  length-push_back (y ∷ xs) x = omega (arith, length-push_back xs x)

-- `Vec::contains`
unfoldable pub contains : List ℕ → ℕ → Bool
contains [] a = false
contains (x ∷ xs) a = x == a || contains xs a

-- The loop `for x in xs { if seen.contains(&x) { return Err(..) } seen.push_back(x) }`: whether it
-- returns the error.
unfoldable pub has_duplicate : List ℕ → List ℕ → Bool
unfolding contains
has_duplicate seen [] = false
has_duplicate seen (x ∷ xs) = contains seen x || has_duplicate (push_back seen x) xs

-- No member is listed twice.
abbrev pub Distinct : List ℕ → Type 0
Distinct [] = Unit
Distinct (x ∷ xs) = (contains xs x ≡ false) × Distinct xs

-- Every member of the first list is in the second.
abbrev pub IsSubset : List ℕ → List ℕ → Type 0
IsSubset [] ys = Unit
IsSubset (x ∷ xs) ys = (contains ys x ≡ true) × IsSubset xs ys

pub contains-push_back :
    (xs : List ℕ) (x a : ℕ) → contains (push_back xs x) a ≡ (contains xs a || x == a)
unfolding contains
contains-push_back [] x a = ground arith
contains-push_back (y ∷ xs) x a = ground (arith, contains-push_back xs x a)

pub push_back-Distinct :
    (xs : List ℕ) (x : ℕ) → Distinct xs → contains xs x ≡ false → Distinct (push_back xs x)
unfolding contains
push_back-Distinct [] x d n = (refl, tt)
push_back-Distinct (y ∷ xs) x d n =
    ground (arith, contains-push_back xs x y, push_back-Distinct xs x d.1)

pub push_back-IsSubset :
    (xs : List ℕ) (x : ℕ) (ys : List ℕ)
    → IsSubset xs ys
    → contains ys x ≡ true
    → IsSubset (push_back xs x) ys
push_back-IsSubset [] x ys d n = (n, tt)
push_back-IsSubset (y ∷ xs) x ys d n = (d.0, push_back-IsSubset xs x ys d.1 n)

-- `ys` without its first `a`.
abbrev pub erase : ℕ → List ℕ → List ℕ
erase a [] = []
erase a (y ∷ ys) = if y == a then ys else y ∷ erase a ys

pub length-erase :
    (a : ℕ) (ys : List ℕ) → contains ys a ≡ true → length (erase a ys) + 1 ≡ length ys
unfolding contains
length-erase a [] h = absurd (cc)
length-erase a (y ∷ ys) h = ground (arith, length-erase a ys)

pub contains-erase_ne :
    (a b : ℕ) (ys : List ℕ) → (a == b) ≡ false → contains (erase a ys) b ≡ contains ys b
unfolding contains
contains-erase_ne a b [] h = refl
contains-erase_ne a b (y ∷ ys) h = ground (arith, contains-erase_ne a b ys h)

erase-IsSubset :
    (a : ℕ) (xs ys : List ℕ) → contains xs a ≡ false → IsSubset xs ys → IsSubset xs (erase a ys)
unfolding contains
erase-IsSubset a [] ys n h = tt
erase-IsSubset a (x ∷ xs) ys n h = ground (arith, contains-erase_ne a x ys, erase-IsSubset a xs ys)

-- A list without repetition is no longer than a list that holds all its members.
pub length-le_of_IsSubset : (xs ys : List ℕ) → Distinct xs → IsSubset xs ys → length xs ≤ length ys
length-le_of_IsSubset [] ys d h = omega arith
length-le_of_IsSubset (x ∷ xs) ys d h = omega (
  arith,
  length-erase x ys h.0,
  length-le_of_IsSubset xs (erase x ys) d.1 (erase-IsSubset x xs ys d.0 h.1),
)

-- Members of `xs` are apart from those of `ys`.
abbrev pub IsApart : List ℕ → List ℕ → Type 0
IsApart [] ys = Unit
IsApart (x ∷ xs) ys = (contains ys x ≡ false) × IsApart xs ys

pub push_back-IsApart :
    (xs seen : List ℕ) (x : ℕ)
    → IsApart xs seen
    → contains xs x ≡ false
    → IsApart xs (push_back seen x)
unfolding contains
push_back-IsApart [] seen x h n = tt
push_back-IsApart (y ∷ xs) seen x h n =
    ground (arith, contains-push_back seen x y, push_back-IsApart xs seen x)

IsApart-push_back :
    (xs seen : List ℕ) (x : ℕ)
    → IsApart xs (push_back seen x)
    → IsApart xs seen × (contains xs x ≡ false)
unfolding contains
IsApart-push_back [] seen x h = (tt, refl)
IsApart-push_back (y ∷ xs) seen x h =
    ground (arith, contains-push_back seen x y, IsApart-push_back xs seen x h.1)

IsApart-nil : (xs : List ℕ) → IsApart xs []
unfolding contains
IsApart-nil [] = tt
IsApart-nil (x ∷ xs) = (refl, IsApart-nil xs)

has_duplicate_from :
    (seen xs : List ℕ) → has_duplicate seen xs ≡ false → Distinct xs × IsApart xs seen
unfolding has_duplicate
has_duplicate_from seen [] h = (tt, tt)
has_duplicate_from seen (x ∷ xs) h =
    ground (arith, has_duplicate_from (push_back seen x) xs, IsApart-push_back xs seen x)

has_duplicate_of :
    (seen xs : List ℕ) → Distinct xs → IsApart xs seen → has_duplicate seen xs ≡ false
unfolding has_duplicate
has_duplicate_of seen [] d h = refl
has_duplicate_of seen (x ∷ xs) d h =
    ground (arith, has_duplicate_of (push_back seen x) xs d.1, push_back-IsApart xs seen x)

-- The loop finds no repetition exactly if there is none.
pub has_duplicate_iff : (xs : List ℕ) → (has_duplicate [] xs ≡ false) ↔ Distinct xs
has_duplicate_iff xs =
    (λ h. (has_duplicate_from [] xs h).0, λ d. has_duplicate_of [] xs d (IsApart-nil xs))

pub IsApart-push :
    (xs : List ℕ) (x : ℕ) (ys : List ℕ)
    → IsApart xs ys
    → contains ys x ≡ false
    → IsApart (push_back xs x) ys
IsApart-push [] x ys d n = (n, tt)
IsApart-push (y ∷ xs) x ys d n = (d.0, IsApart-push xs x ys d.1 n)
