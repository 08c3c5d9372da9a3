-- ===== src/Quality/Handlers.antt =====
-- The entry points of quality_control.rs, with the helpers they share.
use chain_logistics.Base.{
  ℕ, zero, suc, ◌+◌, ◌/◌, ◌%◌, Bool, true, false, not, ◌&&◌, ◌||◌, Option, none, some, String, len,
  [], ◌∷◌, leb, ◌==◌, str_eq, if◌then◌else◌, get_elem?,
}
use Prim.Native.String.{◌++◌}
use chain_logistics.Base.Int.{ℤ, pos, ◌+ℤ◌, ◌-ℤ◌, ◌/ℤ◌, ltb_ℤ}
use chain_logistics.Host.Errors.{Error}
use chain_logistics.Host.Call.{
  Address, Ctx, Call, ok, trap, ◌>>=◌, ◌>>◌, pure, fail_if, gets, modify, require_auth, unwrap_or,
}
use chain_logistics.Oracle.Median.{checked_i128}
use chain_logistics.Quality.State as QualityStore
use chain_logistics.Quality.State.{
  QualityCertification, QualityReading, QualityParameter, ParameterStats, QualityEvent, initialized,
  certification_added, reading_recorded, alert_triggered, parameters_defined, sensor_authorized,
  sensor_revoked, State, set_quality_control_enabled, set_quality_control_admin,
  add_quality_reading, set_quality_parameters, set_parameter_stats, get_parameter_stats,
  is_authorized_sensor,
}

abbrev pub publish : QualityEvent → Call State (Unit {0})
publish e = modify λ s. record s { log = e ∷ s.log }

abbrev pub is_quality_control_admin : String → Address → State → Bool
is_quality_control_admin p caller s = elim (s.admin p) [ none ↦ false | some a ↦ a == caller ]

abbrev pub is_owner : String → Address → State → Bool
is_owner p caller s = elim (s.product p) [ none ↦ false | some x ↦ x.owner == caller ]

abbrev pub require_quality_control_auth : String → Address → Call State (Unit {0})
require_quality_control_auth p caller s =
    fail_if (not (is_quality_control_admin p caller s || is_owner p caller s)) Error.unauthorized s

unfoldable pub init_quality_control : Ctx → Address → String → Call State (Unit {0})
init_quality_control c admin product_id = do
  require_auth c admin
  fail_if (elim (← gets λ s. s.product product_id) [ none ↦ true | some _ ↦ false ])
      Error.product_not_found
  modify (set_quality_control_enabled product_id true)
  modify (set_quality_control_admin product_id admin)
  publish (initialized product_id admin)

unfoldable pub add_quality_certification :
    Ctx
    → Address
    → String
    → String
    → String
    → String
    → ℕ
    → ℕ
    → String
    → Call State QualityCertification
add_quality_certification c caller p kind issuer certificate_id valid_from valid_until metadata = do
  require_auth c caller
  require_quality_control_auth p caller
  let certification : QualityCertification = record {
    certification_id = certificate_id;
    certification_type = kind;
    issuer = issuer;
    certificate_id = certificate_id;
    valid_from = valid_from;
    valid_until = valid_until;
    status = "active";
    metadata = metadata;
  }
  modify (QualityStore.add_quality_certification p certification)
  publish (certification_added p kind issuer certificate_id)
  pure certification

abbrev digit : ℕ → String
digit d =
    unwrap_or (get_elem? ("0" ∷ "1" ∷ "2" ∷ "3" ∷ "4" ∷ "5" ∷ "6" ∷ "7" ∷ "8" ∷ "9" ∷ []) d) ""

-- The loop that writes digits before `buf`; a `u64` has 20 of them at most.
unfoldable pub digits : ℕ → ℕ → String → String
digits zero num buf = buf
digits (suc rounds) num buf =
    let rest = digits rounds (num / 10) (digit (num % 10) ++ buf) in if num == 0 then buf else rest

-- Also `format_count`, whose `u32` has 10 digits at most.
unfoldable pub u64_to_string : ℕ → String
unfolding digits
u64_to_string n = if n == 0 then "0" else digits 20 n ""

-- The buffer has 512 bytes; writing past it panics.
unfoldable pub generate_reading_id : String → String → ℕ → Call State String
generate_reading_id p sensor_id timestamp s =
    let id = p ++ (":" ++ (sensor_id ++ (":" ++ u64_to_string timestamp))) in
    (if leb (len id) 512 then ok id else trap, s)

-- Whether a value is past a bound, and whether it is past the bound by more than a fifth.
unfoldable pub is_critical_low : ℤ → Option ℤ → Bool
is_critical_low value none = false
is_critical_low value (some min) = ltb_ℤ value min && ltb_ℤ value (min -ℤ (min /ℤ pos 5))

unfoldable pub is_low : ℤ → Option ℤ → Bool
is_low value none = false
is_low value (some min) = ltb_ℤ value min

abbrev pub is_high : ℤ → Option ℤ → Bool
is_high value none = false
is_high value (some max) = ltb_ℤ max value

unfoldable pub is_critical_high : ℤ → Option ℤ → Call State Bool
is_critical_high value none s = (ok false, s)
is_critical_high value (some max) s =
    if ltb_ℤ max value
    then (checked_i128 (max +ℤ (max /ℤ pos 5)) >>= λ limit. pure (ltb_ℤ limit value)) s
    else (ok false, s)

unfoldable pub determine_reading_status : ℤ → Option ℤ → Option ℤ → Call State String
unfolding is_critical_low is_low is_critical_high
determine_reading_status value threshold_min threshold_max = do
  critical_high ← is_critical_high value threshold_max
  pure (
      if is_critical_low value threshold_min || critical_high
      then "critical"
      else if is_low value threshold_min || is_high value threshold_max
      then "warning"
      else "normal")

-- `+= 1` on `u32`, with overflow checks on
abbrev increment_count : ℕ → Call State ℕ
increment_count n s = (if leb (n + 1) 4294967295 then ok (n + 1) else trap, s)

unfoldable pub updated : ParameterStats → ℕ → ℤ → ℤ → ℕ → ParameterStats
updated stats count sum value timestamp = record {
  count = count;
  sum = sum;
  min = if count == 1 || ltb_ℤ value stats.min then value else stats.min;
  max = if count == 1 || ltb_ℤ stats.max value then value else stats.max;
  avg = sum /ℤ pos count;
  last_reading = value;
  last_timestamp = timestamp;
}

unfoldable pub update_parameter_stats : Ctx → String → String → ℤ → Call State (Unit {0})
unfolding updated
update_parameter_stats c p parameter value = do
  stats ← gets (get_parameter_stats p parameter)
  count ← increment_count stats.count
  sum ← checked_i128 (stats.sum +ℤ value)
  modify (set_parameter_stats p parameter (updated stats count sum value c.timestamp))

-- What the caller gives.
pub record NewReading : Type 0 where
  pub by : Address
  pub product : String
  pub sensor_id : String
  pub parameter : String
  pub value : ℤ
  pub unit : String
  pub location : String
  pub threshold_min : Option ℤ
  pub threshold_max : Option ℤ

abbrev pub reading_of : Ctx → NewReading → String → String → QualityReading
reading_of c x status reading_id = record {
  reading_id = reading_id;
  product_id = x.product;
  sensor_id = x.sensor_id;
  parameter = x.parameter;
  value = x.value;
  unit = x.unit;
  timestamp = c.timestamp;
  location = x.location;
  status = status;
  threshold_min = x.threshold_min;
  threshold_max = x.threshold_max;
}

-- `if status == "critical" { .. }`
abbrev alert : QualityReading → Call State (Unit {0})
alert r =
    if str_eq r.status "critical"
    then publish (alert_triggered r.product_id r.parameter r.value)
    else pure tt

-- The writes, from `add_quality_reading` on.
unfoldable pub store_reading : Ctx → QualityReading → Call State QualityReading
unfolding update_parameter_stats
store_reading c r = do
  modify (add_quality_reading r.product_id r)
  update_parameter_stats c r.product_id r.parameter r.value
  publish (reading_recorded r.product_id r.sensor_id r.parameter r.value r.unit r.status)
  alert r
  pure r

unfoldable pub record_quality_reading : Ctx → NewReading → Call State QualityReading
unfolding generate_reading_id determine_reading_status store_reading
record_quality_reading c x = do
  require_auth c x.by
  sensor ← gets (is_authorized_sensor x.product x.by)
  admin ← gets (is_quality_control_admin x.product x.by)
  fail_if (not sensor && not admin) Error.unauthorized
  status ← determine_reading_status x.value x.threshold_min x.threshold_max
  reading_id ← generate_reading_id x.product x.sensor_id c.timestamp
  store_reading c (reading_of c x status reading_id)
