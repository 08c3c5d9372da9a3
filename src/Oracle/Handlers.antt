-- ===== src/Oracle/Handlers.antt =====
-- The private functions and the entry points of oracle.rs.
use chain_logistics.Base.{
  ℕ, ◌+◌, ◌-◌, max, Bool, true, false, not, ◌&&◌, ◌||◌, Option, none, some, List, [], ◌∷◌, ltb, leb,
  ◌==◌, if◌then◌else◌, length, push_back,
}
use chain_logistics.Base.Int.{ℤ, pos, ◌-ℤ◌, ltb_ℤ, leb_ℤ}
use chain_logistics.Host.Errors.{Error}
use chain_logistics.Host.Call.{
  Address, Symbol, Bytes, Ctx, Call, ok, trap, ◌>>=◌, ◌>>◌, pure, fail, fail_if, ok_or, gets,
  modify, require_auth,
}
use chain_logistics.Types.{OracleFeedConfig}
use chain_logistics.Oracle.State.{
  OracleSource, OracleReport, OracleSnapshot, oracle_feed_configured, oracle_source_registered,
  oracle_report_accepted, State, store_feed_config, load_feed_sources, store_feed_sources,
  store_source, store_report, store_snapshot, store_fallback, load_circuit_broken,
  store_circuit_broken,
}
use chain_logistics.Oracle.Median.{insert_sorted, median, deviation_bps}

abbrev pub source_slash_penalty : ℤ
source_slash_penalty = pos 1

abbrev pub is_some_address : Address → Option Address → Bool
is_some_address caller stored = elim stored [ none ↦ false | some a ↦ a == caller ]

unfoldable pub require_controller : Ctx → Address → Call State (Unit {0})
require_controller c caller = do
  admin ← ok_or (← gets λ s. s.admin) Error.not_initialized
  timelock ← gets (λ s. s.timelock_contract)
  if admin == caller
      then require_auth c caller
      else if is_some_address caller timelock
      then (if not (c.current_contract_address == caller) then require_auth c caller else pure tt)
      else fail Error.unauthorized

abbrev pub validate_feed_config : OracleFeedConfig → Call State (Unit {0})
validate_feed_config config =
    fail_if
      (ltb_ℤ config.max_value config.min_value
        || (config.max_age_seconds == 0
            || (config.min_sources == 0 || config.max_deviation_bps == 0)))
      Error.invalid_input

abbrev pub is_out_of_range : OracleFeedConfig → ℤ → Bool
is_out_of_range config value = ltb_ℤ value config.min_value || ltb_ℤ config.max_value value

-- `[0; 32]`
abbrev pub zero_hash : Bytes → Bool
zero_hash [] = true
zero_hash (b ∷ bytes) = b == 0 && zero_hash bytes

unfoldable pub validate_report : Ctx → OracleFeedConfig → ℤ → ℕ → Bytes → Call State (Unit {0})
validate_report c config value observed_at proof_hash = do
  fail_if (is_out_of_range config value) Error.oracle_value_out_of_range
  fail_if (ltb c.timestamp observed_at || ltb config.max_age_seconds (c.timestamp - observed_at))
      Error.oracle_report_stale
  fail_if (zero_hash proof_hash) Error.invalid_input

abbrev pub is_report_fresh : Ctx → OracleFeedConfig → OracleReport → Bool
is_report_fresh c config report =
    leb report.observed_at c.timestamp
    && (leb (c.timestamp - report.observed_at) config.max_age_seconds
        && (leb_ℤ config.min_value report.value && leb_ℤ report.value config.max_value))

-- `+= 1` on `u32`, with overflow checks on
abbrev pub increment_u32 : ℕ → Call State ℕ
increment_u32 n s = (if leb (n + 1) 4294967295 then ok (n + 1) else trap, s)

unfoldable pub reward_source : Symbol → Address → Call State (Unit {0})
reward_source feed_id reporter s = elim (s.source feed_id reporter) [
  | none ↦ (ok tt, s)
  | some source ↦
      (increment_u32 source.reward_points >>= λ n.
      modify (store_source feed_id (record source { reward_points = n })))
        s
]

abbrev pub slashed_stake : ℤ → ℤ
slashed_stake stake =
    if ltb_ℤ source_slash_penalty stake then stake -ℤ source_slash_penalty else pos 0

unfoldable pub slash_source : Symbol → Address → Call State (Unit {0})
slash_source feed_id reporter s = elim (s.source feed_id reporter) [
  | none ↦ (ok tt, s)
  | some source ↦
      (increment_u32 source.slash_count >>= λ n. modify (
          store_source feed_id
            (record source { slash_count = n; stake = slashed_stake source.stake })))
        s
]

abbrev pub as_fallback : Symbol → ℕ → OracleSnapshot → OracleSnapshot
as_fallback feed_id source_count good = record {
  feed_id = feed_id;
  value = good.value;
  observed_at = good.observed_at;
  source_count = source_count;
  using_fallback = true;
  circuit_broken = true;
}

unfoldable pub fallback_snapshot : Symbol → ℕ → Call State OracleSnapshot
fallback_snapshot feed_id source_count = do
  modify (store_circuit_broken feed_id true)
  last_good ← gets (λ s. s.snapshot feed_id)
  fallback ← gets (λ s. s.fallback feed_id)
  elim last_good [
    | some good ↦ pure (as_fallback feed_id source_count good)
    | none ↦ elim fallback [
      | some good ↦ pure (as_fallback feed_id source_count good)
      | none ↦ fail Error.oracle_fallback_unavailable
    ]
  ]

abbrev pub add_fresh :
    Ctx → OracleFeedConfig → Option OracleReport → List OracleReport → List OracleReport
add_fresh c config none rest = rest
add_fresh c config (some report) rest =
    if is_report_fresh c config report then report ∷ rest else rest

-- The first loop: the fresh reports of the feed's reporters.
unfoldable pub fresh_loop :
    Ctx → OracleFeedConfig → Symbol → State → List Address → List OracleReport
fresh_loop c config feed_id s [] = []
fresh_loop c config feed_id s (reporter ∷ reporters) =
    add_fresh c config (s.report feed_id reporter) (fresh_loop c config feed_id s reporters)

-- The vector of their values, which the first loop keeps sorted.
unfoldable pub values_loop : List ℤ → List OracleReport → List ℤ
values_loop sorted [] = sorted
values_loop sorted (report ∷ reports) = values_loop (insert_sorted sorted report.value) reports

-- What the second loop has: the accepted values, their number, and the latest observation.
pub record Accepted : Type 0 where
  pub values : List ℤ
  pub count : ℕ
  pub observed_at : ℕ

-- The body of the second loop, before the rest of its rounds.
abbrev pub accept_report :
    OracleFeedConfig
    → Symbol
    → OracleReport
    → Accepted
    → (Accepted → Call State Accepted)
    → ℕ
    → Call State Accepted
accept_report config feed_id report acc rest deviation =
    if leb deviation config.max_deviation_bps
    then (increment_u32 acc.count >>= λ count.
        reward_source feed_id report.reporter
        >> rest (record {
          values = insert_sorted acc.values report.value;
          count = count;
          observed_at = max acc.observed_at report.observed_at;
        }))
    else slash_source feed_id report.reporter >> rest acc

-- The second loop: a report near the reference is rewarded, another one slashed.
unfoldable pub accept_loop :
    OracleFeedConfig → Symbol → ℤ → List OracleReport → Accepted → Call State Accepted
accept_loop config feed_id reference [] acc = pure acc
accept_loop config feed_id reference (report ∷ reports) acc =
    let rest = accept_loop config feed_id reference reports in
    deviation_bps report.value reference >>= accept_report config feed_id report acc rest

abbrev pub none_accepted : Accepted
none_accepted = record { values = []; count = 0; observed_at = 0 }

-- The end of a recomputation.
unfoldable pub publish_snapshot : OracleFeedConfig → Symbol → Accepted → Call State OracleSnapshot
publish_snapshot config feed_id acc =
    if ltb acc.count config.min_sources then fallback_snapshot feed_id acc.count else do
      value ← median acc.values
      let snapshot : OracleSnapshot = record {
        feed_id = feed_id;
        value = value;
        observed_at = acc.observed_at;
        source_count = acc.count;
        using_fallback = false;
        circuit_broken = false;
      }
      modify (store_snapshot snapshot)
      modify (store_circuit_broken feed_id false)
      pure snapshot

unfoldable pub recompute_snapshot : Ctx → Symbol → Call State OracleSnapshot
recompute_snapshot c feed_id = do
  config ← ok_or (← gets λ s. s.feed_config feed_id) Error.oracle_feed_not_configured
  fresh_reports ← gets (λ s. fresh_loop c config feed_id s (load_feed_sources feed_id s))
  let sorted_values = values_loop [] fresh_reports
  if ltb (length sorted_values) config.min_sources
      then fallback_snapshot feed_id (length sorted_values)
      else median sorted_values >>= λ reference.
          accept_loop config feed_id reference fresh_reports none_accepted
          >>= publish_snapshot config feed_id

unfoldable pub oracle_init : Ctx → Address → Call State (Unit {0})
oracle_init c admin = do
  fail_if (elim (← gets λ s. s.admin) [ none ↦ false | some _ ↦ true ]) Error.already_initialized
  require_auth c admin
  modify (λ s. record s { admin = some admin })

unfoldable pub set_timelock_contract : Ctx → Address → Address → Call State (Unit {0})
set_timelock_contract c caller timelock_contract = do
  require_controller c caller
  modify (λ s. record s { timelock_contract = some timelock_contract })

unfoldable pub configure_feed : Ctx → Address → OracleFeedConfig → Call State (Unit {0})
configure_feed c caller config = do
  require_controller c caller
  validate_feed_config config
  modify (store_feed_config config)
  modify (λ s. record s { events = oracle_feed_configured config.feed_id config ∷ s.events })

unfoldable pub register_source : Ctx → Address → Symbol → Address → ℤ → Call State (Unit {0})
register_source c caller feed_id reporter stake = do
  require_controller c caller
  ok_or (← gets λ s. s.feed_config feed_id) Error.oracle_feed_not_configured >> pure tt
  fail_if (leb_ℤ stake (pos 0)) Error.oracle_invalid_stake
  fail_if (elim (← gets λ s. s.source feed_id reporter) [ none ↦ false | some _ ↦ true ])
      Error.duplicate_oracle_source
  modify (
      store_source feed_id (record {
        reporter = reporter;
        stake = stake;
        active = true;
        reward_points = 0;
        slash_count = 0;
      }))
  reporters ← gets (load_feed_sources feed_id)
  modify (store_feed_sources feed_id (push_back reporters reporter))
  modify (λ s. record s { events = oracle_source_registered feed_id reporter stake ∷ s.events })

unfoldable pub set_fallback_value : Ctx → Address → Symbol → ℤ → ℕ → Call State (Unit {0})
set_fallback_value c caller feed_id value observed_at = do
  require_controller c caller
  config ← ok_or (← gets λ s. s.feed_config feed_id) Error.oracle_feed_not_configured
  fail_if (is_out_of_range config value) Error.oracle_value_out_of_range
  modify (
      store_fallback (record {
        feed_id = feed_id;
        value = value;
        observed_at = observed_at;
        source_count = 0;
        using_fallback = true;
        circuit_broken = false;
      }))

unfoldable pub submit_report : Ctx → Address → Symbol → ℤ → ℕ → Bytes → Call State OracleSnapshot
submit_report c reporter feed_id value observed_at proof_hash = do
  require_auth c reporter
  config ← ok_or (← gets λ s. s.feed_config feed_id) Error.oracle_feed_not_configured
  source ← ok_or (← gets λ s. s.source feed_id reporter) Error.oracle_source_not_found
  fail_if (not source.active) Error.oracle_source_not_found
  validate_report c config value observed_at proof_hash
  modify (
      store_report feed_id (record {
        reporter = reporter;
        value = value;
        observed_at = observed_at;
        submitted_at = c.timestamp;
        proof_hash = proof_hash;
      }))
  snapshot ← recompute_snapshot c feed_id
  modify (λ s. record s { events = oracle_report_accepted feed_id reporter snapshot ∷ s.events })
  pure snapshot

unfoldable pub get_feed_config : Symbol → Call State OracleFeedConfig
get_feed_config feed_id = do
  ok_or (← gets λ s. s.feed_config feed_id) Error.oracle_feed_not_configured

abbrev pub is_recent : Ctx → OracleFeedConfig → OracleSnapshot → Bool
is_recent c config snapshot =
    not snapshot.circuit_broken && leb (c.timestamp - snapshot.observed_at) config.max_age_seconds

unfoldable pub get_feed_value : Ctx → Symbol → Call State OracleSnapshot
get_feed_value c feed_id = do
  config ← ok_or (← gets λ s. s.feed_config feed_id) Error.oracle_feed_not_configured
  stored ← gets (λ s. s.snapshot feed_id)
  elim stored [
    | none ↦ fallback_snapshot feed_id 0
    | some snapshot ↦
        if is_recent c config snapshot then pure snapshot else fallback_snapshot feed_id 0
  ]

unfoldable pub get_source : Symbol → Address → Call State OracleSource
get_source feed_id reporter = do
  ok_or (← gets λ s. s.source feed_id reporter) Error.oracle_source_not_found

abbrev pub is_circuit_broken : Symbol → State → Bool
is_circuit_broken feed_id s = load_circuit_broken feed_id s

unfoldable pub clear_circuit_breaker : Ctx → Address → Symbol → Call State (Unit {0})
clear_circuit_breaker c caller feed_id = do
  require_controller c caller
  modify (store_circuit_broken feed_id false)
