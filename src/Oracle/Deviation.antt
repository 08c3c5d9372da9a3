-- ===== src/Oracle/Deviation.antt =====
-- Two places where oracle.rs does not protect a feed.
use chain_logistics.Base.{ℕ, suc, ◌+◌, ◌*◌, ◌/◌, ◌%◌, ◌≤◌, ◌≡◌, ◌∙◌, ap, Bool, arith, min}
use native.Mathlib.Nat.{mul_assoc, mul-div_cancel_left}
use chain_logistics.Base.Int.{pos, max_i128}
use chain_logistics.Host.Call.{Symbol, Ctx, ok}
use chain_logistics.Oracle.State.{State, store_circuit_broken}
use chain_logistics.Oracle.Median.{deviation_bps}
use chain_logistics.Oracle.Handlers.{get_feed_value, fallback_snapshot}

-- Whether a feed's circuit breaker is set makes no difference to the value that is answered.
pub circuit_ignored :
    (c : Ctx) (f g : Symbol) (broken : Bool) (s : State)
    → (get_feed_value c f (store_circuit_broken g broken s)).0 ≡ (get_feed_value c f s).0
unfolding get_feed_value fallback_snapshot
circuit_ignored c f g broken s = ground arith

-- The deviation of a value above a positive reference.
deviation_above :
    {S : Type 0} (s : S) (r d : ℕ)
    → d * 10000 ≤ max_i128
    → deviation_bps (pos (suc r + d)) (pos (suc r)) s ≡ (ok (d * 10000 / suc r % 4294967296), s)
unfolding deviation_bps
deviation_above s r d fits =
    let whole : min (d * 10000) max_i128 ≡ d * 10000 = omega (arith, fits) in
    ground (arith, fits, whole)

scaled : (r m : ℕ) → suc r * m * 10000 / suc r ≡ m * 10000
scaled r m =
    ap (λ n. n / suc r) (mul_assoc (suc r) m 10000) ∙ mul-div_cancel_left (m * 10000) (omega arith)

-- The deviation is cut to 32 bits: a value that exceeds a positive reference by a multiple of 2^28 times
-- the reference, as far as `i128` reaches, has the deviation 0, as if it were the reference.
pub deviation_wraps :
    {S : Type 0} (s : S) (r k : ℕ)
    → suc r * (268435456 * k) * 10000 ≤ max_i128
    → deviation_bps (pos (suc r + suc r * (268435456 * k))) (pos (suc r)) s ≡ (ok 0, s)
unfolding deviation_bps
deviation_wraps s r k fits =
    let wrapped : 268435456 * k * 10000 % 4294967296 ≡ 0 = omega arith in
    deviation_above s r (suc r * (268435456 * k)) fits
    ∙ ap (λ n. (ok (n % 4294967296), s)) (scaled r (268435456 * k))
    ∙ ap (λ n. (ok n, s)) wrapped
