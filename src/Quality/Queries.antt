-- ===== src/Quality/Queries.antt =====
-- The parameters and sensors of quality_control.rs, and its queries.
use chain_logistics.Base.{
  ℕ, ◌+◌, Bool, true, not, ◌&&◌, Option, none, some, String, List, [], ◌∷◌, ltb, leb, str_eq,
  if◌then◌else◌, length, filter_map,
}
use chain_logistics.Host.Errors.{Error}
use chain_logistics.Host.Call.{
  Address, Ctx, Call, ◌>>=◌, ◌>>◌, pure, fail_if, gets, modify, require_auth,
}
use chain_logistics.Quality.State as QualityStore
use chain_logistics.Quality.State.{
  QualityCertification, QualityReading, QualityParameter, parameters_defined, sensor_authorized,
  sensor_revoked, State, set_quality_parameters,
}
use chain_logistics.Quality.Handlers.{
  publish, is_quality_control_admin, require_quality_control_auth, u64_to_string,
}

unfoldable pub define_quality_parameters :
    Ctx → Address → String → List QualityParameter → Call State (Unit {0})
define_quality_parameters c caller p parameters = do
  require_auth c caller
  require_quality_control_auth p caller
  modify (set_quality_parameters p parameters)
  publish (parameters_defined p (length parameters))

unfoldable pub authorize_sensor :
    Ctx → Address → String → Address → String → String → Call State (Unit {0})
authorize_sensor c admin p sensor_address sensor_id sensor_type = do
  require_auth c admin
  fail_if (not (← gets (is_quality_control_admin p admin))) Error.unauthorized
  modify (QualityStore.authorize_sensor p sensor_address sensor_id sensor_type)
  publish (sensor_authorized p sensor_address sensor_id sensor_type)

unfoldable pub revoke_sensor_authorization :
    Ctx → Address → String → Address → Call State (Unit {0})
revoke_sensor_authorization c admin p sensor_address = do
  require_auth c admin
  fail_if (not (← gets (is_quality_control_admin p admin))) Error.unauthorized
  modify (QualityStore.revoke_sensor_authorization p sensor_address)
  publish (sensor_revoked p sensor_address)

-- The tests of a reading that `continue` skips.
abbrev pub passes : Option String → Option ℕ → Option ℕ → QualityReading → Bool
passes parameter from to r =
    elim parameter [ none ↦ true | some param ↦ str_eq r.parameter param ]
    && (elim from [ none ↦ true | some t ↦ leb t r.timestamp ]
        && elim to [ none ↦ true | some t ↦ leb r.timestamp t ])

-- The loop, which stops after a push that fills the limit; `found` are pushed before.
unfoldable pub filter_loop :
    (QualityReading → Bool) → ℕ → ℕ → List QualityReading → List QualityReading
filter_loop test limit found [] = []
filter_loop test limit found (r ∷ readings) =
    let next = filter_loop test limit (found + 1) readings in
    let same = filter_loop test limit found readings in
    if test r then r ∷ (if leb limit (found + 1) then [] else next) else same

unfoldable pub get_quality_readings :
    String → Option String → Option ℕ → Option ℕ → ℕ → Call State (List QualityReading)
unfolding filter_loop
get_quality_readings p parameter from to limit = do
  fail_if (ltb 100 limit) Error.invalid_limit
  readings ← gets (QualityStore.get_quality_readings p)
  pure (filter_loop (passes parameter from to) limit 0 readings)

unfoldable pub get_quality_certifications : Ctx → String → State → List QualityCertification
get_quality_certifications c p s =
    filter_map
      (λ x. if leb x.valid_from c.timestamp && leb c.timestamp x.valid_until then some x else none)
      (QualityStore.get_quality_certifications p s)

-- The five entries of the map.
pub record QualitySummary : Type 0 where
  pub total_readings : String
  pub critical_count : String
  pub warning_count : String
  pub normal_count : String
  pub certification_count : String

abbrev pub count_status : (String → Bool) → List QualityReading → ℕ
count_status test [] = 0
count_status test (r ∷ readings) = (if test r.status then 1 else 0) + count_status test readings

unfoldable pub get_quality_summary : String → State → QualitySummary
get_quality_summary p s =
    let readings = QualityStore.get_quality_readings p s in
    let critical = count_status (λ t. str_eq t "critical") readings in
    let warning = count_status (λ t. not (str_eq t "critical") && str_eq t "warning") readings in
    let normal =
      count_status (λ t. not (str_eq t "critical") && not (str_eq t "warning")) readings in
    record {
      total_readings = u64_to_string (length readings);
      critical_count = u64_to_string critical;
      warning_count = u64_to_string warning;
      normal_count = u64_to_string normal;
      certification_count = u64_to_string (length (QualityStore.get_quality_certifications p s));
    }
