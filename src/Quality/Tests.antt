-- ===== src/Quality/Tests.antt =====
-- quality_control.rs on concrete inputs.
use chain_logistics.Base.{
  ℕ, ◌≡◌, refl, true, some, none, List, [], ◌∷◌, arith, str_eq, contains, if◌then◌else◌,
}
use chain_logistics.Base.Int.{pos, negsuc}
use chain_logistics.Host.Errors.{Error}
use chain_logistics.Host.Call.{Ctx, ok, err}
use chain_logistics.Products.State.{Product}
use chain_logistics.Quality.State.{State, empty}
use chain_logistics.Quality.State as QualityStore
use chain_logistics.Quality.Handlers.{
  NewReading, init_quality_control, u64_to_string, digits, record_quality_reading, store_reading,
  determine_reading_status, is_critical_low, is_critical_high, is_low, generate_reading_id,
  update_parameter_stats, updated,
}
use chain_logistics.Quality.Queries.{authorize_sensor}
use chain_logistics.Quality.Requests.{Request, setup, authorize, measure, step, run}
use chain_logistics.Quality.Statistics.{StatsInv, step-StatsInv, run-StatsInv, empty-StatsInv}
use chain_logistics.Quality.Takeover.{taken_over}
use chain_logistics.Quality.Thresholds.{negative_threshold_critical}

abbrev moment : ℕ → Ctx
moment t = record { timestamp = t; current_contract_address = 9; authorized = λ _. true }

abbrev fish : Product
fish = record {
  id = "FISH";
  name = "Fish";
  description = "Frozen";
  origin = record { location = "Bergen" };
  owner = 1;
  created_at = 5;
  active = true;
  category = "Food";
  tags = [];
  certifications = [];
  media_hashes = [];
  custom = [];
  deactivation_info = [];
}

abbrev stocked : State
stocked = record empty { product = λ p. if str_eq p "FISH" then some fish else none }

stocked-StatsInv : StatsInv stocked
stocked-StatsInv = empty-StatsInv

abbrev cold : ℕ → NewReading
cold n = record {
  by = 2;
  product = "FISH";
  sensor_id = "S1";
  parameter = "temperature";
  value = negsuc n;
  unit = "C";
  location = "Hold";
  threshold_min = some (negsuc 19);
  threshold_max = some (negsuc 9);
}

abbrev requests : List (Ctx × Request)
requests =
    (moment 10, setup 1 "FISH")
    ∷ (moment 11, authorize 1 "FISH" 2 "S1" "probe")
    ∷ (moment 12, measure (cold 14))
    ∷ (moment 120, measure (cold 20))
    ∷ []

-- A degree below the threshold of -20 is critical.
recorded :
    ((QualityStore.get_parameter_stats "FISH" "temperature" (run requests stocked)).count ≡ 2)
    × ((QualityStore.get_parameter_stats "FISH" "temperature" (run requests stocked)).avg
        ≡ negsuc 17)
    × (u64_to_string 18446744073709551615 ≡ "18446744073709551615")
    × ((determine_reading_status (negsuc 20) (some (negsuc 19)) none stocked).0 ≡ ok "critical")
    × ((determine_reading_status (pos 19) (some (pos 20)) none stocked).0 ≡ ok "warning")
unfolding run step init_quality_control authorize_sensor record_quality_reading store_reading
    determine_reading_status is_critical_low is_critical_high is_low generate_reading_id
    update_parameter_stats updated u64_to_string digits QualityStore.authorize_sensor contains
recorded = (refl, refl, refl, refl, refl)

step-StatsInv_example : StatsInv (step (moment 130) (measure (cold 12)) (run requests stocked))
step-StatsInv_example =
    step-StatsInv (moment 130) (measure (cold 12)) (run requests stocked)
      (run-StatsInv requests stocked stocked-StatsInv)

abbrev controlled : State
controlled = record stocked { admin = λ p. if str_eq p "FISH" then some 1 else none }

taken_over_example :
    let s' = (init_quality_control (moment 10) 7 "FISH" controlled).1 in
    ((init_quality_control (moment 10) 7 "FISH" controlled).0 ≡ ok tt)
    × ((authorize_sensor (moment 11) 1 "FISH" 2 "S1" "probe" controlled).0 ≡ ok tt)
    × ((authorize_sensor (moment 11) 1 "FISH" 2 "S1" "probe" s').0 ≡ err Error.unauthorized)
    × ((authorize_sensor (moment 11) 7 "FISH" 2 "S1" "probe" s').0 ≡ ok tt)
taken_over_example =
    taken_over (moment 10) (moment 11) 7 1 "FISH" controlled 2 "S1" "probe" (λ e. absurd (cc)) refl
      (λ e. absurd (ground (arith, e))) refl refl refl

critical : (determine_reading_status (negsuc 20) (some (negsuc 19)) none stocked).0 ≡ ok "critical"
unfolding determine_reading_status is_critical_low is_critical_high is_low
critical = refl

negative_threshold_critical_example :
    (determine_reading_status (negsuc 20) (some (negsuc 19)) none stocked).0 ≡ ok "critical"
negative_threshold_critical_example =
    negative_threshold_critical (negsuc 20) 19 none stocked refl critical
