-- ===== src/Quality/Thresholds.antt =====
-- The thresholds of quality_control.rs below zero.
use chain_logistics.Base.{ℕ, ◌≡◌, true, Option, some, String, arith}
use chain_logistics.Base.Int.{ℤ, negsuc, pos, ltb_ℤ}
use chain_logistics.Host.Call.{ok}
use chain_logistics.Quality.State.{State}
use chain_logistics.Quality.Handlers.{is_critical_low, determine_reading_status}

below_negative :
    (v : ℤ) (n : ℕ) → ltb_ℤ v (negsuc n) ≡ true → is_critical_low v (some (negsuc n)) ≡ true
unfolding is_critical_low
below_negative (pos m) n h = absurd (ground (arith, h))
below_negative (negsuc m) n h = ground (arith, h)

-- Where the lower threshold is negative, any value below it that gets a status is critical, however near: the limit that
-- is meant to be a fifth below the threshold is a fifth above it, towards zero.
pub negative_threshold_critical :
    (v : ℤ) (n : ℕ) (threshold_max : Option ℤ) (s : State) {status : String}
    → ltb_ℤ v (negsuc n) ≡ true
    → (determine_reading_status v (some (negsuc n)) threshold_max s).0 ≡ ok status
    → (determine_reading_status v (some (negsuc n)) threshold_max s).0 ≡ ok "critical"
unfolding determine_reading_status
negative_threshold_critical v n threshold_max s low h =
    let critical = below_negative v n low in ground (arith, h, critical)
