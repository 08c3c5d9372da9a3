-- ===== src/Multisig/State.antt =====
-- The storage of multisig.rs, and the types of types.rs and events.rs that it holds.
use chain_logistics.Base.{ℕ, Bool, false, Option, none, some, List, [], ◌∷◌, str_eq, if◌then◌else◌}
use chain_logistics.Host.Call.{Address, Symbol, Storage, put, unwrap_or}

pub data ProposalStatus : Type 0 where
  active approved executed rejected expired : ProposalStatus

-- The maps `thresholds` and `time_locks` are functions from kinds.
pub record MultiSigConfig : Type 0 where
  pub signers : List Address
  pub threshold : ℕ
  pub thresholds : Symbol → Option ℕ
  pub time_locks : Symbol → Option ℕ

-- A host value, only passed on.
abbrev pub Val : Type 0
Val = ℕ

pub record Proposal : Type 0 where
  pub id : ℕ
  pub kind : Symbol
  pub target : Address
  pub args : List Val
  pub proposer : Address
  pub created_at : ℕ
  pub approved_at : ℕ
  pub status : ProposalStatus
  pub approvals : List Address
  pub rejections : List Address

pub data MultisigEvent : Type 0 where
  multisig_initialized : List Address → ℕ → MultisigEvent
  proposal_submitted : ℕ → Address → Symbol → List Val → MultisigEvent
  proposal_approved : ℕ → Address → MultisigEvent
  admin_transfer_executed : List Val → Address → MultisigEvent
  upgrade_initiate_executed : List Val → Address → MultisigEvent
  upgrade_complete_executed : MultisigEvent
  upgrade_fail_executed : List Val → MultisigEvent
  pause_executed : MultisigEvent
  unpause_executed : MultisigEvent
  proposal_executed : ℕ → Address → Symbol → List Val → MultisigEvent

-- A call through `invoke_contract`.
pub record Invocation : Type 0 where
  pub target : Address
  pub fn_name : Symbol
  pub args : List Val

-- Storage, the re-entrancy locks by scope, and what was published and called, the newest first.
pub record State : Type 0 where
  pub config : Option MultiSigConfig
  pub next_proposal_id : Option ℕ
  pub proposals : Storage Proposal
  pub locks : Symbol → Bool
  pub events : List MultisigEvent
  pub invocations : List Invocation

abbrev pub empty : State
empty = record {
  config = none;
  next_proposal_id = none;
  proposals = λ _. none;
  locks = λ _. false;
  events = [];
  invocations = [];
}

abbrev pub get_multisig_config : State → Option MultiSigConfig
get_multisig_config s = s.config

abbrev pub set_multisig_config : MultiSigConfig → State → State
set_multisig_config config s = record s { config = some config }

abbrev pub get_next_proposal_id : State → ℕ
get_next_proposal_id s = unwrap_or s.next_proposal_id 1

abbrev pub set_next_proposal_id : ℕ → State → State
set_next_proposal_id id s = record s { next_proposal_id = some id }

abbrev pub get_proposal : ℕ → State → Option Proposal
get_proposal proposal_id s = s.proposals proposal_id

abbrev pub put_proposal : Proposal → State → State
put_proposal proposal s = record s { proposals = put proposal.id proposal s.proposals }

abbrev pub publish : MultisigEvent → State → State
publish e s = record s { events = e ∷ s.events }

abbrev pub set_lock : Symbol → Bool → State → State
set_lock scope locked s = record s {
  locks = λ other. if str_eq scope other then locked else s.locks other;
}
