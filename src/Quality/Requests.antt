-- ===== src/Quality/Requests.antt =====
-- Invocations of quality_control.rs.
use chain_logistics.Base.{ℕ, String, List, [], ◌∷◌}
use chain_logistics.Host.Call.{Address, Ctx, committed}
use chain_logistics.Quality.State.{QualityParameter, State}
use chain_logistics.Quality.Handlers.{
  NewReading, init_quality_control, add_quality_certification, record_quality_reading,
}
use chain_logistics.Quality.Queries.{
  define_quality_parameters, authorize_sensor, revoke_sensor_authorization,
}

pub data Request : Type 0 where
  setup : Address → String → Request
  certify : Address → String → String → String → String → ℕ → ℕ → String → Request
  measure : NewReading → Request
  define : Address → String → List QualityParameter → Request
  authorize : Address → String → Address → String → String → Request
  revoke : Address → String → Address → Request

unfoldable pub step : Ctx → Request → State → State
step c (setup a p) s = committed (init_quality_control c a p) s
step c (certify a p k i n f u m) s = committed (add_quality_certification c a p k i n f u m) s
step c (measure x) s = committed (record_quality_reading c x) s
step c (define a p l) s = committed (define_quality_parameters c a p l) s
step c (authorize a p x i k) s = committed (authorize_sensor c a p x i k) s
step c (revoke a p x) s = committed (revoke_sensor_authorization c a p x) s

unfoldable pub run : List (Ctx × Request) → State → State
run [] s = s
run ((c, r) ∷ rs) s = run rs (step c r s)
