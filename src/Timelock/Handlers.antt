-- ===== src/Timelock/Handlers.antt =====
-- The entry points of timelock.rs, with the helpers they share.
use chain_logistics.Base.{
  ℕ, ◌*◌, Bool, true, false, not, ◌&&◌, ◌||◌, none, some, [], ◌∷◌, ltb, leb, ◌==◌, if◌then◌else◌,
  length, push_back, contains, has_duplicate,
}
use chain_logistics.Host.Errors.{Error}
use chain_logistics.Host.Call.{
  Address, Symbol, Ctx, Call, ◌>>=◌, ◌>>◌, pure, fail_if, ok_or, gets, modify, require_auth,
  require_all, add_u64,
}
use chain_logistics.Timelock.State.{
  TimelockAction, TimelockConfig, TimelockStatus, pending_approvals, queued, executed, cancelled,
  TimelockOperation, timelock_proposed, timelock_cancelled, State, load_config, store_config,
  get_next_operation_id, set_next_operation_id, load_operation, store_operation, publish,
}
use chain_logistics.Timelock.Actions.{Callee, perform_action}

abbrev pub min_delay_floor : ℕ
min_delay_floor = 86400

abbrev pub max_delay_ceiling : ℕ
max_delay_ceiling = 7 * 86400

abbrev pub is_pending : TimelockStatus → Bool
is_pending pending_approvals = true
is_pending _ = false

abbrev pub is_queued : TimelockStatus → Bool
is_queued queued = true
is_queued _ = false

abbrev pub is_executed : TimelockStatus → Bool
is_executed executed = true
is_executed _ = false

abbrev pub is_cancelled : TimelockStatus → Bool
is_cancelled cancelled = true
is_cancelled _ = false

unfoldable pub require_signer : Ctx → Address → Call State TimelockConfig
require_signer c caller = do
  config ← ok_or (← gets load_config) Error.multi_sig_not_configured
  fail_if (not (contains config.signers caller)) Error.not_signer
  require_auth c caller
  pure config

unfoldable pub validate_config : TimelockConfig → Call State (Unit {0})
validate_config config = do
  fail_if (length config.signers == 0) Error.invalid_input
  fail_if (config.threshold == 0 || ltb (length config.signers) config.threshold)
      Error.invalid_threshold
  fail_if (ltb config.min_delay_seconds min_delay_floor) Error.timelock_delay_too_short
  fail_if
      (ltb max_delay_ceiling config.max_delay_seconds
        || ltb config.max_delay_seconds config.min_delay_seconds)
      Error.timelock_delay_too_long
  fail_if (config.grace_period_seconds == 0 || ltb max_delay_ceiling config.grace_period_seconds)
      Error.timelock_delay_too_long
  fail_if (has_duplicate [] config.signers) Error.duplicate_signer

unfoldable pub maybe_queue : TimelockOperation → ℕ → TimelockOperation
maybe_queue operation threshold =
    if leb threshold (length operation.approvals) && is_pending operation.status
    then record operation { status = queued }
    else operation

unfoldable pub timelock_init : Ctx → TimelockConfig → Call State (Unit {0})
unfolding validate_config
timelock_init c config = do
  fail_if (elim (← gets load_config) [ none ↦ false | some _ ↦ true ]) Error.already_initialized
  validate_config config
  require_all c config.signers
  modify (store_config config)
  modify (set_next_operation_id 1)

unfoldable pub propose_action : Ctx → Address → TimelockAction → ℕ → Call State ℕ
unfolding require_signer maybe_queue
propose_action c proposer action delay_seconds = do
  config ← require_signer c proposer
  fail_if (ltb delay_seconds config.min_delay_seconds) Error.timelock_delay_too_short
  fail_if (ltb config.max_delay_seconds delay_seconds) Error.timelock_delay_too_long
  operation_id ← gets get_next_operation_id
  next_id ← add_u64 operation_id 1
  modify (set_next_operation_id next_id)
  ready_at ← add_u64 c.timestamp delay_seconds
  execute_by ← add_u64 ready_at config.grace_period_seconds
  let operation : TimelockOperation = record {
    id = operation_id;
    proposer = proposer;
    action = action;
    created_at = c.timestamp;
    ready_at = ready_at;
    execute_by = execute_by;
    status = pending_approvals;
    approvals = proposer ∷ [];
    required_approvals = config.threshold;
    is_executed = false;
  }
  let operation' = maybe_queue operation config.threshold
  modify (store_operation operation')
  modify (publish (timelock_proposed operation_id operation'))
  pure operation_id

unfoldable pub approve_action : Ctx → Address → ℕ → Call State TimelockOperation
unfolding require_signer maybe_queue
approve_action c approver operation_id = do
  config ← require_signer c approver
  operation ← ok_or (← gets (load_operation operation_id)) Error.proposal_not_found
  fail_if (is_cancelled operation.status) Error.timelock_cancelled
  fail_if (is_executed operation.status) Error.proposal_already_executed
  fail_if (contains operation.approvals approver) Error.already_approved
  let operation' =
      maybe_queue (record operation { approvals = push_back operation.approvals approver })
        config.threshold
  modify (store_operation operation')
  pure operation'

unfoldable pub cancel_action : Ctx → Address → ℕ → Symbol → Call State (Unit {0})
unfolding require_signer
cancel_action c canceller operation_id reason = do
  require_signer c canceller >> pure tt
  operation ← ok_or (← gets (load_operation operation_id)) Error.proposal_not_found
  fail_if (is_executed operation.status) Error.proposal_already_executed
  modify (store_operation (record operation { status = cancelled }))
  modify (publish (timelock_cancelled operation_id canceller reason))

unfoldable pub execute_action : Callee → Ctx → Address → ℕ → Call State (Unit {0})
unfolding require_signer
execute_action h c executor operation_id = do
  config ← require_signer c executor
  operation ← ok_or (← gets (load_operation operation_id)) Error.proposal_not_found
  fail_if (is_cancelled operation.status) Error.timelock_cancelled
  fail_if (is_executed operation.status) Error.proposal_already_executed
  fail_if (not (is_queued operation.status)) Error.threshold_not_reached
  fail_if (ltb c.timestamp operation.ready_at) Error.timelock_not_ready
  fail_if (ltb operation.execute_by c.timestamp) Error.timelock_expired
  perform_action h c config operation.action
  modify (store_operation (record operation { status = executed }))

unfoldable pub get_config : Call State TimelockConfig
get_config = do ok_or (← gets load_config) Error.multi_sig_not_configured

unfoldable pub get_operation : ℕ → Call State TimelockOperation
get_operation operation_id = do
  ok_or (← gets (load_operation operation_id)) Error.proposal_not_found
