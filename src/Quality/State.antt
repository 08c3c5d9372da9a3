-- ===== src/Quality/State.antt =====
-- The storage of quality_control.rs, by the functions of storage.rs.
use chain_logistics.Base.{
  ℕ, Bool, true, false, not, ◌&&◌, Option, none, some, String, List, [], ◌==◌, str_eq,
  if◌then◌else◌, push_back, contains,
}
use chain_logistics.Base.Int.{ℤ, pos}
use chain_logistics.Host.Call.{Address, Keyed, put_at, unwrap_or}
use chain_logistics.Products.State.{Product}

pub record QualityCertification : Type 0 where
  pub certification_id : String
  pub certification_type : String
  pub issuer : String
  pub certificate_id : String
  pub valid_from : ℕ
  pub valid_until : ℕ
  pub status : String
  pub metadata : String

pub record QualityReading : Type 0 where
  pub reading_id : String
  pub product_id : String
  pub sensor_id : String
  pub parameter : String
  pub value : ℤ
  pub unit : String
  pub timestamp : ℕ
  pub location : String
  pub status : String
  pub threshold_min : Option ℤ
  pub threshold_max : Option ℤ

pub record QualityParameter : Type 0 where
  pub name : String
  pub unit : String
  pub threshold_min : Option ℤ
  pub threshold_max : Option ℤ
  pub critical_threshold_min : Option ℤ
  pub critical_threshold_max : Option ℤ

pub record ParameterStats : Type 0 where
  pub count : ℕ
  pub sum : ℤ
  pub min : ℤ
  pub max : ℤ
  pub avg : ℤ
  pub last_reading : ℤ
  pub last_timestamp : ℕ

pub record SensorInfo : Type 0 where
  pub address : Address
  pub sensor_id : String
  pub sensor_type : String
  pub authorized : Bool

pub data QualityEvent : Type 0 where
  initialized : String → Address → QualityEvent
  certification_added : String → String → String → String → QualityEvent
  reading_recorded : String → String → String → ℤ → String → String → QualityEvent
  alert_triggered : String → String → ℤ → QualityEvent
  parameters_defined : String → ℕ → QualityEvent
  sensor_authorized : String → Address → String → String → QualityEvent
  sensor_revoked : String → Address → QualityEvent

-- Storage under a family of keys `K(String, String)`.
abbrev pub Keyed2 : Type 0 → Type 0
Keyed2 V = String → String → Option V

abbrev pub put_at2 : {V : Type 0} → String → String → V → Keyed2 V → Keyed2 V
put_at2 p k v m q l = if str_eq p q && str_eq k l then some v else m q l

pub record State : Type 0 where
  pub product : Keyed Product
  pub enabled : Keyed Bool
  pub admin : Keyed Address
  pub certification : Keyed2 QualityCertification
  pub certifications : Keyed (List QualityCertification)
  pub reading : Keyed2 QualityReading
  pub readings : Keyed (List QualityReading)
  pub parameters : Keyed (List QualityParameter)
  pub stats : Keyed2 ParameterStats
  pub sensor : String → Address → Option SensorInfo
  pub sensors : Keyed (List Address)
  pub log : List QualityEvent

abbrev pub empty : State
empty = record {
  product = λ _. none;
  enabled = λ _. none;
  admin = λ _. none;
  certification = λ _ _. none;
  certifications = λ _. none;
  reading = λ _ _. none;
  readings = λ _. none;
  parameters = λ _. none;
  stats = λ _ _. none;
  sensor = λ _ _. none;
  sensors = λ _. none;
  log = [];
}

abbrev pub set_quality_control_enabled : String → Bool → State → State
set_quality_control_enabled p enabled s = record s { enabled = put_at p enabled s.enabled }

abbrev pub set_quality_control_admin : String → Address → State → State
set_quality_control_admin p admin s = record s { admin = put_at p admin s.admin }

abbrev pub get_quality_certifications : String → State → List QualityCertification
get_quality_certifications p s = unwrap_or (s.certifications p) []

abbrev pub add_quality_certification : String → QualityCertification → State → State
add_quality_certification p x s = record s {
  certification = put_at2 p x.certification_id x s.certification;
  certifications = put_at p (push_back (get_quality_certifications p s) x) s.certifications;
}

abbrev pub get_quality_readings : String → State → List QualityReading
get_quality_readings p s = unwrap_or (s.readings p) []

abbrev pub add_quality_reading : String → QualityReading → State → State
add_quality_reading p x s = record s {
  reading = put_at2 p x.reading_id x s.reading;
  readings = put_at p (push_back (get_quality_readings p s) x) s.readings;
}

abbrev pub set_quality_parameters : String → List QualityParameter → State → State
set_quality_parameters p parameters s = record s { parameters = put_at p parameters s.parameters }

abbrev pub get_quality_parameters : String → State → List QualityParameter
get_quality_parameters p s = unwrap_or (s.parameters p) []

abbrev pub set_parameter_stats : String → String → ParameterStats → State → State
set_parameter_stats p parameter x s = record s { stats = put_at2 p parameter x s.stats }

abbrev pub no_stats : ParameterStats
no_stats = record {
  count = 0;
  sum = pos 0;
  min = pos 0;
  max = pos 0;
  avg = pos 0;
  last_reading = pos 0;
  last_timestamp = 0;
}

abbrev pub get_parameter_stats : String → String → State → ParameterStats
get_parameter_stats p parameter s = unwrap_or (s.stats p parameter) no_stats

abbrev pub put_sensor : String → Address → SensorInfo → State → State
put_sensor p a x s = record s {
  sensor = λ q b. if str_eq p q && a == b then some x else s.sensor q b;
}

unfoldable pub authorize_sensor : String → Address → String → String → State → State
authorize_sensor p a sensor_id sensor_type s =
    let listed = unwrap_or (s.sensors p) [] in
    let info : SensorInfo = record {
      address = a;
      sensor_id = sensor_id;
      sensor_type = sensor_type;
      authorized = true;
    } in
    let s' = put_sensor p a info s in
    if not (contains listed a)
    then record s' { sensors = put_at p (push_back listed a) s.sensors }
    else s'

unfoldable pub revoke_sensor_authorization : String → Address → State → State
revoke_sensor_authorization p a s = elim (s.sensor p a) [
  | none ↦ s
  | some info ↦ put_sensor p a (record info { authorized = false }) s
]

abbrev pub is_authorized_sensor : String → Address → State → Bool
is_authorized_sensor p a s = elim (s.sensor p a) [ none ↦ false | some info ↦ info.authorized ]
