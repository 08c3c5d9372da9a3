-- ===== src/Multisig/Handlers.antt =====
-- The entry points of multisig.rs, with the helpers they share.
use chain_logistics.Base.{
  ℕ, zero, suc, ◌+◌, ◌-◌, min, max, Bool, true, false, not, ◌||◌, Option, none, some, List, [], ◌∷◌,
  ltb, leb, ◌==◌, str_eq, if◌then◌else◌, length, push_back, contains, has_duplicate,
}
use chain_logistics.Host.Errors.{Error}
use chain_logistics.Host.Call.{
  Address, Symbol, Ctx, Call, ok, trap, ◌>>=◌, ◌>>◌, pure, fail_if, ok_or, gets, modify,
  require_auth, require_all, add_u64, checked_add_u64, unwrap_or,
}
use chain_logistics.Validation.{validate_contract_address, validate_event_type}
use chain_logistics.Multisig.State.{
  ProposalStatus, active, approved, executed, rejected, MultiSigConfig, Val, Proposal,
  MultisigEvent, multisig_initialized, proposal_submitted, proposal_approved,
  admin_transfer_executed, upgrade_initiate_executed, upgrade_complete_executed,
  upgrade_fail_executed, pause_executed, unpause_executed, proposal_executed, Invocation, State,
  get_multisig_config, set_multisig_config, get_next_proposal_id, set_next_proposal_id,
  get_proposal, put_proposal, publish, set_lock,
}

abbrev pub is_active : ProposalStatus → Bool
is_active active = true
is_active _ = false

abbrev pub is_approved : ProposalStatus → Bool
is_approved approved = true
is_approved _ = false

abbrev pub is_executed : ProposalStatus → Bool
is_executed executed = true
is_executed _ = false

abbrev pub is_rejected : ProposalStatus → Bool
is_rejected rejected = true
is_rejected _ = false

unfoldable pub require_signer : Address → Call State (Unit {0})
require_signer caller = do
  config ← ok_or (← gets get_multisig_config) Error.multi_sig_not_configured
  fail_if (not (contains config.signers caller)) Error.not_signer

-- The approvals that a kind of proposal needs.
abbrev pub threshold_for : MultiSigConfig → Symbol → ℕ
threshold_for config kind = unwrap_or (config.thresholds kind) config.threshold

abbrev pub approval_threshold : Symbol → State → Option ℕ
approval_threshold kind s = elim s.config [
  | none ↦ none
  | some config ↦ some (threshold_for config kind)
]

abbrev pub threshold_reached : Symbol → List Address → State → Bool
threshold_reached kind approvals s = elim (approval_threshold kind s) [
  | none ↦ false
  | some threshold ↦ leb threshold (length approvals)
]

-- `saturating_sub` and `saturating_add` on `u32`.
abbrev pub max_rejections : MultiSigConfig → Symbol → ℕ
max_rejections config kind = min (length config.signers - threshold_for config kind + 1) 4294967295

abbrev pub rejection_threshold_reached : Symbol → List Address → State → Bool
rejection_threshold_reached kind rejections s = elim s.config [
  | none ↦ false
  | some config ↦ leb (max_rejections config kind) (length rejections)
]

abbrev pub get_time_lock : Symbol → State → ℕ
get_time_lock kind s = elim s.config [
  | none ↦ 0
  | some config ↦ unwrap_or (config.time_locks kind) 0
]

unfoldable pub init_multisig :
    Ctx → List Address → ℕ → (Symbol → Option ℕ) → (Symbol → Option ℕ) → Call State (Unit {0})
init_multisig c signers threshold thresholds time_locks = do
  fail_if (elim (← gets get_multisig_config) [ none ↦ false | some _ ↦ true ])
      Error.already_initialized
  fail_if (length signers == 0) Error.invalid_input
  fail_if (threshold == 0 || ltb (length signers) threshold) Error.invalid_threshold
  fail_if (ltb 10 (length signers)) Error.too_many_signers
  fail_if (has_duplicate [] signers) Error.duplicate_signer
  require_all c signers
  modify (
      set_multisig_config (record {
        signers = signers;
        threshold = threshold;
        thresholds = thresholds;
        time_locks = time_locks;
      }))
  modify (set_next_proposal_id 1)
  modify (publish (multisig_initialized signers threshold))

unfoldable pub reject_proposal : Ctx → Address → ℕ → Call State (Unit {0})
unfolding require_signer
reject_proposal c rejecter proposal_id = do
  require_signer rejecter
  require_auth c rejecter
  proposal ← ok_or (← gets (get_proposal proposal_id)) Error.proposal_not_found
  fail_if (not (is_active proposal.status)) Error.proposal_already_executed
  fail_if (contains proposal.approvals rejecter) Error.already_approved
  fail_if (contains proposal.rejections rejecter) Error.already_rejected
  let rejections' = push_back proposal.rejections rejecter
  reached ← gets (rejection_threshold_reached proposal.kind rejections')
  modify (
      put_proposal (record proposal {
        rejections = rejections';
        status = if reached then rejected else proposal.status;
      }))

unfoldable pub submit_proposal : Ctx → Address → Address → Symbol → List Val → Call State ℕ
unfolding require_signer
submit_proposal c proposer target kind args = do
  require_signer proposer
  require_auth c proposer
  validate_contract_address c target
  validate_event_type kind
  proposal_id ← gets get_next_proposal_id
  next_id ← ok_or (checked_add_u64 proposal_id 1) Error.arithmetic_overflow
  modify (set_next_proposal_id next_id)
  modify (
      put_proposal (record {
        id = proposal_id;
        kind = kind;
        target = target;
        args = args;
        proposer = proposer;
        created_at = c.timestamp;
        approved_at = 0;
        status = active;
        approvals = proposer ∷ [];
        rejections = [];
      }))
  modify (publish (proposal_submitted proposal_id proposer kind args))
  pure proposal_id

unfoldable pub approve_proposal : Ctx → Address → ℕ → Call State (Unit {0})
unfolding require_signer
approve_proposal c approver proposal_id = do
  require_signer approver
  require_auth c approver
  proposal ← ok_or (← gets (get_proposal proposal_id)) Error.proposal_not_found
  fail_if (not (is_active proposal.status)) Error.proposal_already_executed
  fail_if (contains proposal.approvals approver) Error.already_approved
  fail_if (contains proposal.rejections approver) Error.already_rejected
  let approvals' = push_back proposal.approvals approver
  reached ← gets (threshold_reached proposal.kind approvals')
  modify (
      put_proposal (record proposal {
        approvals = approvals';
        status = if reached then approved else proposal.status;
        approved_at = if reached then c.timestamp else proposal.approved_at;
      }))
  modify (publish (proposal_approved proposal_id approver))

-- The event of each kind of proposal that the contract knows.
unfoldable pub kind_event : Proposal → Address → Option MultisigEvent
kind_event proposal executor =
    if str_eq proposal.kind "transfer_admin"
    then some (admin_transfer_executed proposal.args executor)
    else if str_eq proposal.kind "initiate_upgrade"
    then some (upgrade_initiate_executed proposal.args executor)
    else if str_eq proposal.kind "complete_upgrade"
    then some upgrade_complete_executed
    else if str_eq proposal.kind "fail_upgrade"
    then some (upgrade_fail_executed proposal.args)
    else if str_eq proposal.kind "pause"
    then some pause_executed
    else if str_eq proposal.kind "unpause"
    then some unpause_executed
    else none

unfoldable pub acquire_reentrancy_lock : Symbol → Call State (Unit {0})
acquire_reentrancy_lock scope = do
  fail_if (← gets λ s. s.locks scope) Error.reentrancy_detected
  modify (set_lock scope true)

unfoldable pub release_reentrancy_lock : Symbol → Call State (Unit {0})
release_reentrancy_lock scope = modify (set_lock scope false)

-- Whether the called contract returns; if it fails, the caller panics.
abbrev pub Callee : Type 0
Callee = Invocation → Bool

abbrev pub invoke_contract : Callee → Address → Symbol → List Val → Call State (Unit {0})
invoke_contract callee target fn_name args s =
    let call : Invocation = record { target = target; fn_name = fn_name; args = args } in
    (if callee call then ok tt else trap, record s { invocations = call ∷ s.invocations })

unfoldable pub execute_proposal : Callee → Ctx → Address → ℕ → Call State (Unit {0})
unfolding require_signer acquire_reentrancy_lock release_reentrancy_lock
execute_proposal f c executor proposal_id = do
  require_signer executor
  require_auth c executor
  proposal ← ok_or (← gets (get_proposal proposal_id)) Error.proposal_not_found
  fail_if (is_executed proposal.status) Error.proposal_already_executed
  fail_if (is_rejected proposal.status) Error.proposal_rejected
  fail_if (not (is_approved proposal.status)) Error.threshold_not_reached
  time_lock ← gets (get_time_lock proposal.kind)
  unlock_at ← ok_or (checked_add_u64 proposal.approved_at time_lock) Error.arithmetic_overflow
  fail_if (ltb c.timestamp unlock_at) Error.time_lock_not_expired
  modify (put_proposal (record proposal { status = executed }))
  event ← ok_or (kind_event proposal executor) Error.invalid_input
  modify (publish event)
  modify (publish (proposal_executed proposal_id executor proposal.kind proposal.args))
  acquire_reentrancy_lock "multisig_exec"
  invoke_contract f proposal.target proposal.kind proposal.args
  release_reentrancy_lock "multisig_exec"

unfoldable pub get_proposal_or_fail : ℕ → Call State Proposal
get_proposal_or_fail proposal_id = do
  ok_or (← gets (get_proposal proposal_id)) Error.proposal_not_found

-- `while current < end { ids.push_back(current); current += 1; }`, by the rounds left.
unfoldable pub ids_from : ℕ → ℕ → List ℕ
ids_from current zero = []
ids_from current (suc rounds) = current ∷ ids_from (current + 1) rounds

unfoldable pub get_proposal_ids : ℕ → ℕ → Call State (List ℕ)
get_proposal_ids from_id limit = do
  next_id ← gets get_next_proposal_id
  let current = max from_id 1
  last ← add_u64 current limit
  let end = min last next_id
  pure (ids_from current (end - current))
