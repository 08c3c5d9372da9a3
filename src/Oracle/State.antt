-- ===== src/Oracle/State.antt =====
-- The storage of oracle.rs, and its helpers by their names.
use chain_logistics.Base.{
  ℕ, Bool, false, ◌&&◌, Option, none, some, List, [], ◌==◌, str_eq, if◌then◌else◌,
}
use chain_logistics.Base.Int.{ℤ}
use chain_logistics.Host.Call.{Address, Symbol, Bytes, Keyed, put_at, unwrap_or}
use chain_logistics.Types.{OracleFeedConfig}

pub record OracleSource : Type 0 where
  pub reporter : Address
  pub stake : ℤ
  pub active : Bool
  pub reward_points : ℕ
  pub slash_count : ℕ

pub record OracleReport : Type 0 where
  pub reporter : Address
  pub value : ℤ
  pub observed_at : ℕ
  pub submitted_at : ℕ
  pub proof_hash : Bytes

pub record OracleSnapshot : Type 0 where
  pub feed_id : Symbol
  pub value : ℤ
  pub observed_at : ℕ
  pub source_count : ℕ
  pub using_fallback : Bool
  pub circuit_broken : Bool

pub data OracleEvent : Type 0 where
  oracle_feed_configured : Symbol → OracleFeedConfig → OracleEvent
  oracle_source_registered : Symbol → Address → ℤ → OracleEvent
  oracle_report_accepted : Symbol → Address → OracleSnapshot → OracleEvent

-- Storage under a family of keys `K(Symbol, Address)`.
abbrev pub PerReporter : Type 0 → Type 0
PerReporter V = Symbol → Address → Option V

abbrev pub put_for : {V : Type 0} → Symbol → Address → V → PerReporter V → PerReporter V
put_for feed_id reporter v m f r = if str_eq feed_id f && reporter == r then some v else m f r

pub record State : Type 0 where
  pub admin : Option Address
  pub timelock_contract : Option Address
  pub feed_config : Keyed OracleFeedConfig
  pub feed_sources : Keyed (List Address)
  pub source : PerReporter OracleSource
  pub report : PerReporter OracleReport
  pub snapshot : Keyed OracleSnapshot
  pub fallback : Keyed OracleSnapshot
  pub circuit_broken : Keyed Bool
  pub events : List OracleEvent

abbrev pub empty : State
empty = record {
  admin = none;
  timelock_contract = none;
  feed_config = λ _. none;
  feed_sources = λ _. none;
  source = λ _ _. none;
  report = λ _ _. none;
  snapshot = λ _. none;
  fallback = λ _. none;
  circuit_broken = λ _. none;
  events = [];
}

abbrev pub store_feed_config : OracleFeedConfig → State → State
store_feed_config config s = record s { feed_config = put_at config.feed_id config s.feed_config }

abbrev pub load_feed_sources : Symbol → State → List Address
load_feed_sources feed_id s = unwrap_or (s.feed_sources feed_id) []

abbrev pub store_feed_sources : Symbol → List Address → State → State
store_feed_sources feed_id reporters s = record s {
  feed_sources = put_at feed_id reporters s.feed_sources;
}

abbrev pub store_source : Symbol → OracleSource → State → State
store_source feed_id source s = record s {
  source = put_for feed_id source.reporter source s.source;
}

abbrev pub store_report : Symbol → OracleReport → State → State
store_report feed_id report s = record s {
  report = put_for feed_id report.reporter report s.report;
}

abbrev pub store_snapshot : OracleSnapshot → State → State
store_snapshot snapshot s = record s { snapshot = put_at snapshot.feed_id snapshot s.snapshot }

abbrev pub store_fallback : OracleSnapshot → State → State
store_fallback snapshot s = record s { fallback = put_at snapshot.feed_id snapshot s.fallback }

abbrev pub load_circuit_broken : Symbol → State → Bool
load_circuit_broken feed_id s = unwrap_or (s.circuit_broken feed_id) false

abbrev pub store_circuit_broken : Symbol → Bool → State → State
store_circuit_broken feed_id broken s = record s {
  circuit_broken = put_at feed_id broken s.circuit_broken;
}
