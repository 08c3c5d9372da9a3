-- ===== src/Oracle/Requests.antt =====
-- Invocations of oracle.rs, and what the successful ones leave.
use chain_logistics.Base.{
  ℕ, ◌≤◌, ◌≡◌, refl, ap, ◌∙◌, inl, inr, true, false, none, some, List, [], ◌∷◌, arith, push_back,
  Option-cases,
}
use chain_logistics.Base.Int.{ℤ, pos, ◌≤ℤ◌}
use chain_logistics.Host.Call.{
  Address, Symbol, Bytes, Ctx, Call, ok, ◌>>=◌, ◌>>◌, committed, modify, pure, bind_sound, Keyed,
  put_at,
}
use chain_logistics.Types.{OracleFeedConfig}
use chain_logistics.Oracle.State.{
  OracleSource, OracleSnapshot, OracleEvent, put_for, State, load_feed_sources, store_report,
  oracle_report_accepted, oracle_feed_configured, oracle_source_registered,
}
use chain_logistics.Oracle.Handlers.{
  require_controller, oracle_init, set_timelock_contract, configure_feed, register_source,
  set_fallback_value, submit_report, validate_report, recompute_snapshot, get_feed_value,
  clear_circuit_breaker,
}

pub data Request : Type 0 where
  init : Address → Request
  set_timelock : Address → Address → Request
  configure : Address → OracleFeedConfig → Request
  register : Address → Symbol → Address → ℤ → Request
  set_fallback : Address → Symbol → ℤ → ℕ → Request
  submit : Address → Symbol → ℤ → ℕ → Bytes → Request
  ask : Symbol → Request
  clear : Address → Symbol → Request

unfoldable pub step : Ctx → Request → State → State
step c (init a) s = committed (oracle_init c a) s
step c (set_timelock caller t) s = committed (set_timelock_contract c caller t) s
step c (configure caller config) s = committed (configure_feed c caller config) s
step c (register caller f r stake) s = committed (register_source c caller f r stake) s
step c (set_fallback caller f v at) s = committed (set_fallback_value c caller f v at) s
step c (submit r f v at hash) s = committed (submit_report c r f v at hash) s
step c (ask f) s = committed (get_feed_value c f) s
step c (clear caller f) s = committed (clear_circuit_breaker c caller f) s

unfoldable pub run : List (Ctx × Request) → State → State
run [] s = s
run ((c, r) ∷ rs) s = run rs (step c r s)

require_controller_state :
    (c : Ctx) (caller : Address) (s : State) → (require_controller c caller s).1 ≡ s
unfolding require_controller
require_controller_state c caller s = ground arith

-- What a controller does goes on from the same state.
pub controlled :
    {A : Type 0} (c : Ctx) (caller : Address) (m : Call State A) (s : State) {a : A}
    → ((require_controller c caller >> m) s).0 ≡ ok a
    → (require_controller c caller >> m) s ≡ m s
controlled c caller m s h =
    let (_, _, same) = bind_sound (require_controller c caller) (λ _. m) s h in
    same ∙ ap m (require_controller_state c caller s)

-- A configuration that the contract stores under `g`.
pub record IsConfig (g : Symbol) (config : OracleFeedConfig) : Type 0 where
  pub keyed : config.feed_id ≡ g
  pub ordered : config.min_value ≤ℤ config.max_value
  pub some_sources : 1 ≤ config.min_sources
  pub some_age : 1 ≤ config.max_age_seconds
  pub some_deviation : 1 ≤ config.max_deviation_bps

pub configure_feed_effect :
    (c : Ctx) (caller : Address) (config : OracleFeedConfig) (s : State)
    → (configure_feed c caller config s).0 ≡ ok tt
    → IsConfig config.feed_id config
      × (events : List OracleEvent) × ((configure_feed c caller config s).1
          ≡ record s { feed_config = put_at config.feed_id config s.feed_config; events = events })
unfolding configure_feed require_controller
configure_feed_effect c caller config s h = (
  record {
    keyed = refl;
    ordered = ground (arith, h);
    some_sources = ground (arith, h);
    some_age = ground (arith, h);
    some_deviation = ground (arith, h);
  },
  oracle_feed_configured config.feed_id config ∷ s.events,
  ground (arith, h),
)

abbrev pub registered : Symbol → Address → ℤ → State → State
registered f r stake s =
    let x : OracleSource = record {
      reporter = r;
      stake = stake;
      active = true;
      reward_points = 0;
      slash_count = 0;
    } in
    record s {
      source = put_for f r x s.source;
      feed_sources = put_at f (push_back (load_feed_sources f s) r) s.feed_sources;
      events = oracle_source_registered f r stake ∷ s.events;
    }

pub register_source_effect :
    (c : Ctx) (caller : Address) (f : Symbol) (r : Address) (stake : ℤ) (s : State)
    → (register_source c caller f r stake s).0 ≡ ok tt
    → (s.source f r ≡ none)
      × (pos 0 ≤ℤ stake)
      × ((register_source c caller f r stake s).1 ≡ registered f r stake s)
unfolding register_source require_controller
register_source_effect c caller f r stake s h =
    (ground (arith, h), ground (arith, h), ground (arith, h))

pub set_fallback_value_effect :
    (c : Ctx) (caller : Address) (f : Symbol) (v : ℤ) (at : ℕ) (s : State)
    → (set_fallback_value c caller f v at s).0 ≡ ok tt
    → (fallback : Keyed OracleSnapshot) × ((set_fallback_value c caller f v at s).1
        ≡ record s { fallback = fallback })
unfolding set_fallback_value require_controller
set_fallback_value_effect c caller f v at s h =
    let y : OracleSnapshot = record {
      feed_id = f;
      value = v;
      observed_at = at;
      source_count = 0;
      using_fallback = true;
      circuit_broken = false;
    } in
    (put_at f y s.fallback, ground (arith, h))

-- The calls that set the addresses or a circuit breaker.
pub setting_effects :
    (c : Ctx) (caller t : Address) (f : Symbol) (s : State)
    → ((oracle_init c t s).0 ≡ ok tt → (oracle_init c t s).1 ≡ record s { admin = some t })
      × ((set_timelock_contract c caller t s).0 ≡ ok tt
          → (set_timelock_contract c caller t s).1 ≡ record s { timelock_contract = some t })
      × ((clear_circuit_breaker c caller f s).0 ≡ ok tt
          → (clear_circuit_breaker c caller f s).1
            ≡ record s { circuit_broken = put_at f false s.circuit_broken })
unfolding oracle_init set_timelock_contract clear_circuit_breaker require_controller
setting_effects c caller t f s =
    (λ h. ground (arith, h), λ h. ground (arith, h), λ h. ground (arith, h))

-- The state in which a report is taken up.
abbrev pub reported : Ctx → Address → Symbol → ℤ → ℕ → Bytes → State → State
reported c r f v at hash s =
    store_report f
      (record {
        reporter = r;
        value = v;
        observed_at = at;
        submitted_at = c.timestamp;
        proof_hash = hash;
      })
      s

abbrev pub noted : Symbol → Address → OracleSnapshot → Call State OracleSnapshot
noted f r y = modify (λ s. record s { events = oracle_report_accepted f r y ∷ s.events }) >> pure y

pub submit_report_goes_on :
    (c : Ctx) (r : Address) (f : Symbol) (v : ℤ) (at : ℕ) (hash : Bytes) (s : State)
    {y : OracleSnapshot}
    → (submit_report c r f v at hash s).0 ≡ ok y
    → (config : OracleFeedConfig) × (s.feed_config f ≡ some config)
      × (submit_report c r f v at hash s
          ≡ (recompute_snapshot c f >>= noted f r) (reported c r f v at hash s))
unfolding submit_report validate_report
submit_report_goes_on c r f v at hash s h = elim (Option-cases (s.feed_config f)) [
  | inl e ↦ absurd (ground (arith, e, h))
  | inr (config, e) ↦ elim (Option-cases (s.source f r)) [
    | inl n ↦ absurd (ground (arith, e, n, h))
    | inr (x, n) ↦ (config, e, ground (arith, e, n, h))
  ]
]
