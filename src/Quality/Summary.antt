-- ===== src/Quality/Summary.antt =====
-- Statistics of a list of values, and that quality_control.rs keeps them as a value is added.
use chain_logistics.Base.{
  ℕ, ◌+◌, ◌≡◌, ◌≢◌, refl, ap, sym, ◌∙◌, inl, inr, Bool, true, false, ◌||◌, ◌==◌, String, List, [],
  ◌∷◌, arith, length, push_back, length-push_back, str_eq, if◌then◌else◌, Bool-cases,
}
use chain_logistics.Base.Int.{ℤ, pos, ◌+ℤ◌, ◌/ℤ◌, ◌≤ℤ◌, ltb_ℤ, eqb_ℤ}
use chain_logistics.Quality.State.{QualityReading, ParameterStats}
use chain_logistics.Quality.Handlers.{updated}

-- The values of a parameter, in the order of their recording.
unfoldable pub values_of : String → List QualityReading → List ℤ
values_of parameter [] = []
values_of parameter (r ∷ readings) =
    let rest = values_of parameter readings in
    if str_eq r.parameter parameter then r.value ∷ rest else rest

abbrev pub total_from : ℤ → List ℤ → ℤ
total_from acc [] = acc
total_from acc (x ∷ xs) = total_from (acc +ℤ x) xs

abbrev pub AllBetween : ℤ → ℤ → List ℤ → Type 0
AllBetween a b [] = Unit
AllBetween a b (x ∷ xs) = ((a ≤ℤ x) × (x ≤ℤ b)) × AllBetween a b xs

abbrev pub is_among : ℤ → List ℤ → Bool
is_among v [] = false
is_among v (x ∷ xs) = eqb_ℤ x v || is_among v xs

-- Number, sum, least and greatest member, and mean of these values.
pub record IsSummary (st : ParameterStats) (vs : List ℤ) : Type 0 where
  pub counted : st.count ≡ length vs
  pub summed : st.sum ≡ total_from (pos 0) vs
  pub bounded : AllBetween st.min st.max vs
  pub least : vs ≢ [] → is_among st.min vs ≡ true
  pub greatest : vs ≢ [] → is_among st.max vs ≡ true
  pub mean : vs ≢ [] → st.avg ≡ st.sum /ℤ pos st.count

total_from-push_back :
    (acc : ℤ) (vs : List ℤ) (v : ℤ) → total_from acc (push_back vs v) ≡ total_from acc vs +ℤ v
total_from-push_back acc [] v = refl
total_from-push_back acc (x ∷ vs) v = total_from-push_back (acc +ℤ x) vs v

pub values_of-push_back :
    (parameter : String) (rs : List QualityReading) (r : QualityReading)
    → values_of parameter (push_back rs r) ≡ (
        if str_eq r.parameter parameter
        then push_back (values_of parameter rs) r.value
        else values_of parameter rs)
unfolding values_of
values_of-push_back parameter [] r = ground arith
values_of-push_back parameter (q ∷ rs) r = ground (arith, values_of-push_back parameter rs r)

is_among-push_back :
    (w : ℤ) (vs : List ℤ) (v : ℤ) → is_among w (push_back vs v) ≡ (is_among w vs || eqb_ℤ v w)
is_among-push_back w [] v = ground arith
is_among-push_back w (x ∷ vs) v = ground (arith, is_among-push_back w vs v)

-- A value that is chosen over the old one by a test is listed, if the old one is wherever there is one.
chosen :
    (b : Bool) (m v : ℤ) (vs : List ℤ)
    → (b ≡ false → is_among m vs ≡ true)
    → is_among (if b then v else m) (push_back vs v) ≡ true
chosen true m v vs h = ground (arith, is_among-push_back v vs v)
chosen false m v vs h = ground (arith, is_among-push_back m vs v, h refl)

some_value :
    (n : ℕ) (vs : List ℤ) (b : Bool) → n ≡ length vs → ((n + 1 == 1) || b) ≡ false → vs ≢ []
some_value n vs b e h z = ground (arith, e, h, ap length z)

widened :
    (a b a' b' : ℤ) (vs : List ℤ) → a' ≤ℤ a → b ≤ℤ b' → AllBetween a b vs → AllBetween a' b' vs
widened a b a' b' [] l u h = tt
widened a b a' b' (x ∷ vs) l u ((p, q), h) =
    ((omega (arith, l, p), omega (arith, q, u)), widened a b a' b' vs l u h)

AllBetween-push_back :
    (a b : ℤ) (vs : List ℤ) (v : ℤ)
    → AllBetween a b vs
    → a ≤ℤ v
    → v ≤ℤ b
    → AllBetween a b (push_back vs v)
AllBetween-push_back a b [] v h l u = ((l, u), tt)
AllBetween-push_back a b (x ∷ vs) v (p, h) l u = (p, AllBetween-push_back a b vs v h l u)

-- The value that is chosen as the new least or greatest one.
lower : (n : ℕ) (m v : ℤ) → (if n == 1 || ltb_ℤ v m then v else m) ≤ℤ v
lower n m v = elim (Bool-cases (n == 1 || ltb_ℤ v m)) [
  | inl t ↦ rw t (omega arith)
  | inr t ↦ rw t (ground (arith, t))
]

lower_old : (n : ℕ) (m v : ℤ) → n ≢ 1 → (if n == 1 || ltb_ℤ v m then v else m) ≤ℤ m
lower_old n m v h = elim (Bool-cases (n == 1 || ltb_ℤ v m)) [
  | inl t ↦ rw t (ground (arith, t, h))
  | inr t ↦ rw t (omega arith)
]

upper : (n : ℕ) (m v : ℤ) → v ≤ℤ (if n == 1 || ltb_ℤ m v then v else m)
upper n m v = elim (Bool-cases (n == 1 || ltb_ℤ m v)) [
  | inl t ↦ rw t (omega arith)
  | inr t ↦ rw t (ground (arith, t))
]

upper_old : (n : ℕ) (m v : ℤ) → n ≢ 1 → m ≤ℤ (if n == 1 || ltb_ℤ m v then v else m)
upper_old n m v h = elim (Bool-cases (n == 1 || ltb_ℤ m v)) [
  | inl t ↦ rw t (ground (arith, t, h))
  | inr t ↦ rw t (omega arith)
]

updated_bounds :
    (st : ParameterStats) (sum v : ℤ) (t : ℕ) (vs : List ℤ)
    → st.count ≡ length vs
    → AllBetween st.min st.max vs
    → AllBetween (updated st (st.count + 1) sum v t).min (updated st (st.count + 1) sum v t).max vs
unfolding updated
updated_bounds st sum v t [] n h = tt
updated_bounds st sum v t (x ∷ vs) n h =
    let more : st.count + 1 ≢ 1 = λ e. absurd (omega (arith, n, e)) in
    widened st.min st.max (updated st (st.count + 1) sum v t).min
      (updated st (st.count + 1) sum v t).max (x ∷ vs) (lower_old (st.count + 1) st.min v more)
      (upper_old (st.count + 1) st.max v more) h

pub updated-IsSummary :
    (st : ParameterStats) (vs : List ℤ) (v : ℤ) (t : ℕ)
    → IsSummary st vs
    → IsSummary (updated st (st.count + 1) (st.sum +ℤ v) v t) (push_back vs v)
unfolding updated
updated-IsSummary st vs v t h = record {
  counted = ground (arith, h.counted, length-push_back vs v);
  summed = ap (λ s. s +ℤ v) h.summed ∙ sym (total_from-push_back (pos 0) vs v);
  bounded =
      AllBetween-push_back (updated st (st.count + 1) (st.sum +ℤ v) v t).min
        (updated st (st.count + 1) (st.sum +ℤ v) v t).max vs v
        (updated_bounds st (st.sum +ℤ v) v t vs h.counted h.bounded) (lower (st.count + 1) st.min v)
        (upper (st.count + 1) st.max v);
  least = λ _.
      chosen (st.count + 1 == 1 || ltb_ℤ v st.min) st.min v vs
        (λ b. h.least (some_value st.count vs (ltb_ℤ v st.min) h.counted b));
  greatest = λ _.
      chosen (st.count + 1 == 1 || ltb_ℤ st.max v) st.max v vs
        (λ b. h.greatest (some_value st.count vs (ltb_ℤ st.max v) h.counted b));
  mean = λ n. refl;
}
