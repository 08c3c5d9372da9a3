-- ===== src/CircuitBreaker/State.antt =====
-- The storage of circuit_breaker.rs, and the types of types.rs that it holds.
use chain_logistics.Base.{
  ℕ, suc, zero, Bool, false, Option, none, some, List, [], ◌∷◌, String, ◌==◌, if◌then◌else◌,
}
use chain_logistics.Host.Call.{Address, Storage, put, unwrap_or}

pub data PauseLevel : Type 0 where
  advisory partial full emergency : PauseLevel

pub data PauseReason : Type 0 where
  security_breach oracle_failure regulatory_action maintenance : PauseReason
  market_volatility system_upgrade contract_bug other : PauseReason

pub record PauseRecord : Type 0 where
  pub record_id : ℕ
  pub activated_by : Address
  pub level : PauseLevel
  pub reason : PauseReason
  pub description : String
  pub activated_at : ℕ
  pub expires_at : ℕ
  pub lifted_by : List Address
  pub lifted_at : ℕ

pub record CircuitBreakerState : Type 0 where
  pub is_paused : Bool
  pub level : PauseLevel
  pub current_record_id : ℕ
  pub paused_at : ℕ
  pub expires_at : ℕ

pub record PauseApproval : Type 0 where
  pub approval_id : ℕ
  pub proposed_level : PauseLevel
  pub proposed_reason : PauseReason
  pub description : String
  pub expires_at : ℕ
  pub proposer : Address
  pub approvals : List Address
  pub required_approvals : ℕ
  pub executed : Bool

pub data BreakerEvent : Type 0 where
  cb_initialized : Address → List Address → BreakerEvent
  cb_guardian_added : Address → BreakerEvent
  cb_guardian_removed : Address → BreakerEvent
  cb_paused : ℕ → Address → PauseLevel → PauseReason → String → ℕ → BreakerEvent
  cb_lifted : ℕ → Address → BreakerEvent
  cb_expired : ℕ → ℕ → BreakerEvent
  cb_proposal_created : ℕ → Address → PauseLevel → PauseReason → ℕ → BreakerEvent
  cb_proposal_approved : ℕ → Address → BreakerEvent
  cb_proposal_executed : ℕ → Address → ℕ → BreakerEvent

pub record State : Type 0 where
  pub admin : Option Address
  pub guardians : Option (List Address)
  pub breaker : Option CircuitBreakerState
  pub next_record : Option ℕ
  pub records : Storage PauseRecord
  pub next_approval : Option ℕ
  pub pending : Storage PauseApproval
  pub events : List BreakerEvent

abbrev pub empty : State
empty = record {
  admin = none;
  guardians = none;
  breaker = none;
  next_record = none;
  records = λ _. none;
  next_approval = none;
  pending = λ _. none;
  events = [];
}

abbrev pub unpaused : CircuitBreakerState
unpaused = record {
  is_paused = false;
  level = advisory;
  current_record_id = 0;
  paused_at = 0;
  expires_at = 0;
}

abbrev pub get_guardians : State → List Address
get_guardians s = unwrap_or s.guardians []

abbrev pub load_state : State → CircuitBreakerState
load_state s = unwrap_or s.breaker unpaused

abbrev pub set_state : CircuitBreakerState → State → State
set_state b s = record s { breaker = some b }

abbrev pub put_record : PauseRecord → State → State
put_record r s = record s { records = put r.record_id r s.records }

abbrev pub put_approval : PauseApproval → State → State
put_approval a s = record s { pending = put a.approval_id a s.pending }

abbrev pub publish : BreakerEvent → State → State
publish e s = record s { events = e ∷ s.events }

-- `for i in 0..guardians.len() { if guardians[i] == guardian { idx = Some(i); break; } }`
unfoldable pub find_index : List Address → Address → Option ℕ
find_index [] a = none
find_index (x ∷ xs) a =
    if x == a then some 0 else elim (find_index xs a) [ none ↦ none | some i ↦ some (suc i) ]

-- `Vec::remove`
unfoldable pub remove_at : List Address → ℕ → List Address
remove_at [] i = []
remove_at (x ∷ xs) zero = xs
remove_at (x ∷ xs) (suc i) = x ∷ remove_at xs i
