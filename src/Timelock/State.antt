-- ===== src/Timelock/State.antt =====
-- The storage of timelock.rs, and the types of types.rs that it holds.
use chain_logistics.Base.{ℕ, Bool, Option, none, some, List, ◌∷◌}
use chain_logistics.Base.Int.{ℤ}
use chain_logistics.Host.Call.{Address, Symbol, Storage, put, unwrap_or}
use chain_logistics.Types.{ContractVersion, OracleFeedConfig}

pub data TimelockAction : Type 0 where
  pause_main : TimelockAction
  unpause_main : TimelockAction
  set_main_multisig : Address → TimelockAction
  initiate_upgrade : ContractVersion → Address → Bool → TimelockAction
  complete_upgrade : TimelockAction
  fail_upgrade : Symbol → TimelockAction
  emergency_pause : Symbol → TimelockAction
  emergency_unpause : TimelockAction
  configure_oracle_feed : Address → OracleFeedConfig → TimelockAction
  set_oracle_fallback : Address → Symbol → ℤ → ℕ → TimelockAction

pub record TimelockConfig : Type 0 where
  pub signers : List Address
  pub threshold : ℕ
  pub min_delay_seconds : ℕ
  pub max_delay_seconds : ℕ
  pub grace_period_seconds : ℕ
  pub main_contract : Address
  pub upgrade_contract : Address

pub data TimelockStatus : Type 0 where
  pending_approvals queued executed cancelled : TimelockStatus

-- `is_executed` is the source's field `executed`, which is also the name of a status.
pub record TimelockOperation : Type 0 where
  pub id : ℕ
  pub proposer : Address
  pub action : TimelockAction
  pub created_at : ℕ
  pub ready_at : ℕ
  pub execute_by : ℕ
  pub status : TimelockStatus
  pub approvals : List Address
  pub required_approvals : ℕ
  pub is_executed : Bool

-- An argument of a cross-contract call, as `into_val` makes it.
pub data Val : Type 0 where
  address : Address → Val
  version : ContractVersion → Val
  boolean : Bool → Val
  symbol : Symbol → Val
  feed_config : OracleFeedConfig → Val
  signed : ℤ → Val
  unsigned : ℕ → Val

-- A cross-contract call; also what `authorize_as_current_contract` lets the contract call.
pub record Invocation : Type 0 where
  pub contract : Address
  pub fn_name : Symbol
  pub args : List Val

pub data TimelockEvent : Type 0 where
  timelock_proposed : ℕ → TimelockOperation → TimelockEvent
  timelock_cancelled : ℕ → Address → Symbol → TimelockEvent

-- Persistent storage, with what the invocations have published, authorised and called so far, the
-- newest first.
pub record State : Type 0 where
  pub config : Option TimelockConfig
  pub next_operation_id : Option ℕ
  pub operations : Storage TimelockOperation
  pub events : List TimelockEvent
  pub authorizations : List Invocation
  pub invocations : List Invocation

abbrev pub empty : State
empty = record {
  config = none;
  next_operation_id = none;
  operations = λ _. none;
  events = List.[];
  authorizations = List.[];
  invocations = List.[];
}

abbrev pub load_config : State → Option TimelockConfig
load_config s = s.config

abbrev pub store_config : TimelockConfig → State → State
store_config cfg s = record s { config = some cfg }

abbrev pub get_next_operation_id : State → ℕ
get_next_operation_id s = unwrap_or s.next_operation_id 1

abbrev pub set_next_operation_id : ℕ → State → State
set_next_operation_id n s = record s { next_operation_id = some n }

abbrev pub load_operation : ℕ → State → Option TimelockOperation
load_operation i s = s.operations i

abbrev pub store_operation : TimelockOperation → State → State
store_operation op s = record s { operations = put op.id op s.operations }

abbrev pub publish : TimelockEvent → State → State
publish e s = record s { events = e ∷ s.events }
