-- ===== src/CircuitBreaker/Handlers.antt =====
-- The entry points of circuit_breaker.rs that change what is blocked or who may block it.
use chain_logistics.Base.{
  ℕ, ◌*◌, Bool, true, false, not, ◌&&◌, ◌||◌, Option, none, some, String, len, List, [], ◌∷◌, ltb,
  leb, ◌==◌, if◌then◌else◌, length, push_back, contains, has_duplicate,
}
use chain_logistics.Host.Errors.{Error}
use chain_logistics.Host.Call.{
  Address, Ctx, Call, ok, ◌>>=◌, ◌>>◌, pure, fail_if, ok_or, gets, modify, require_auth, add_u64,
  unwrap_or,
}
use chain_logistics.CircuitBreaker.State.{
  PauseLevel, advisory, PauseReason, PauseRecord, State, unpaused, get_guardians, load_state,
  set_state, put_record, put_approval, publish, find_index, remove_at, cb_initialized,
  cb_guardian_added, cb_guardian_removed, cb_paused, cb_lifted, cb_proposal_created,
  cb_proposal_approved, cb_proposal_executed,
}

abbrev pub max_guardians : ℕ
max_guardians = 20

abbrev pub max_description_len : ℕ
max_description_len = 256

-- 30 days
abbrev pub max_pause_duration_secs : ℕ
max_pause_duration_secs = 30 * 24 * 60 * 60

abbrev pub next_record_id : Call State ℕ
next_record_id = do
  last ← gets (λ s. unwrap_or s.next_record 0)
  id ← add_u64 last 1
  modify (λ s. record s { next_record = some id })
  pure id

abbrev pub next_approval_id : Call State ℕ
next_approval_id = do
  last ← gets (λ s. unwrap_or s.next_approval 0)
  id ← add_u64 last 1
  modify (λ s. record s { next_approval = some id })
  pure id

unfoldable pub require_admin : Ctx → Address → Call State (Unit {0})
require_admin c caller = do
  admin ← ok_or (← gets λ s. s.admin) Error.circuit_breaker_not_initialized
  require_auth c caller
  fail_if (not (admin == caller)) Error.unauthorized

unfoldable pub require_guardian : Ctx → Address → Call State (Unit {0})
require_guardian c caller = do
  require_auth c caller
  guardians ← gets get_guardians
  fail_if (not (contains guardians caller)) Error.not_guardian

abbrev pub is_expired : Ctx → ℕ → Bool
is_expired c expires_at = not (expires_at == 0) && leb expires_at c.timestamp

abbrev pub validate_description : String → Call State (Unit {0})
validate_description description =
    fail_if (ltb max_description_len (len description)) Error.pause_description_too_long

abbrev pub validate_duration : ℕ → Call State (Unit {0})
validate_duration duration_secs =
    fail_if (not (duration_secs == 0) && ltb max_pause_duration_secs duration_secs)
      Error.invalid_pause_duration

-- `if secs == 0 { 0 } else { now + secs }`
abbrev pub expiry : Ctx → ℕ → Call State ℕ
expiry c secs s = (if secs == 0 then ok 0 else (add_u64 c.timestamp secs s).0, s)

unfoldable pub activate_pause : Ctx → Address → PauseLevel → PauseReason → String → ℕ → Call State ℕ
activate_pause c activated_by level reason description duration_secs = do
  expires_at ← expiry c duration_secs
  record_id ← next_record_id
  modify (
      put_record (record {
        record_id = record_id;
        activated_by = activated_by;
        level = level;
        reason = reason;
        description = description;
        activated_at = c.timestamp;
        expires_at = expires_at;
        lifted_by = [];
        lifted_at = 0;
      }))
  modify (
      set_state (record {
        is_paused = true;
        level = level;
        current_record_id = record_id;
        paused_at = c.timestamp;
        expires_at = expires_at;
      }))
  modify (publish (cb_paused record_id activated_by level reason description expires_at))
  pure record_id

unfoldable pub initialize : Ctx → Address → List Address → Call State (Unit {0})
initialize c admin guardians = do
  fail_if (elim (← gets λ s. s.admin) [ none ↦ false | some _ ↦ true ])
      Error.circuit_breaker_already_initialized
  require_auth c admin
  fail_if (ltb max_guardians (length guardians)) Error.too_many_guardians
  fail_if (has_duplicate [] guardians) Error.duplicate_guardian
  modify (λ s. record s { admin = some admin })
  modify (λ s. record s { guardians = some guardians })
  modify (set_state unpaused)
  modify (publish (cb_initialized admin guardians))

unfoldable pub add_guardian : Ctx → Address → Address → Call State (Unit {0})
unfolding require_admin
add_guardian c caller guardian = do
  require_admin c caller
  guardians ← gets get_guardians
  fail_if (contains guardians guardian) Error.duplicate_guardian
  fail_if (leb max_guardians (length guardians)) Error.too_many_guardians
  modify (λ s. record s { guardians = some (push_back guardians guardian) })
  modify (publish (cb_guardian_added guardian))

unfoldable pub remove_guardian : Ctx → Address → Address → Call State (Unit {0})
unfolding require_admin
remove_guardian c caller guardian = do
  require_admin c caller
  guardians ← gets get_guardians
  i ← ok_or (find_index guardians guardian) Error.not_guardian
  modify (λ s. record s { guardians = some (remove_at guardians i) })
  modify (publish (cb_guardian_removed guardian))

unfoldable pub instant_pause : Ctx → Address → PauseLevel → PauseReason → String → ℕ → Call State ℕ
unfolding require_guardian activate_pause
instant_pause c caller level reason description duration_secs = do
  require_guardian c caller
  validate_description description
  validate_duration duration_secs
  activate_pause c caller level reason description duration_secs

unfoldable pub propose_pause :
    Ctx → Address → PauseLevel → PauseReason → String → ℕ → ℕ → ℕ → Call State ℕ
unfolding require_guardian
propose_pause c proposer level reason description pause_duration_secs required_approvals
      approval_window_secs =
    do
      require_guardian c proposer
      validate_description description
      validate_duration pause_duration_secs
      guardians ← gets get_guardians
      fail_if (required_approvals == 0 || ltb (length guardians) required_approvals)
          Error.invalid_threshold
      expires_at ← expiry c approval_window_secs
      approval_id ← next_approval_id
      modify (
          put_approval (record {
            approval_id = approval_id;
            proposed_level = level;
            proposed_reason = reason;
            description = description;
            expires_at = expires_at;
            proposer = proposer;
            approvals = proposer ∷ [];
            required_approvals = required_approvals;
            executed = false;
          }))
      modify (publish (cb_proposal_created approval_id proposer level reason required_approvals))
      pure approval_id

unfoldable pub approve_pause_proposal : Ctx → Address → ℕ → Call State (Unit {0})
unfolding require_guardian
approve_pause_proposal c approver approval_id = do
  require_guardian c approver
  approval ← ok_or (← gets λ s. s.pending approval_id) Error.approval_not_found
  fail_if approval.executed Error.approval_already_executed
  fail_if (is_expired c approval.expires_at) Error.approval_expired
  fail_if (contains approval.approvals approver) Error.approval_already_voted
  modify (put_approval (record approval { approvals = push_back approval.approvals approver }))
  modify (publish (cb_proposal_approved approval_id approver))

unfoldable pub execute_pause_proposal : Ctx → Address → ℕ → ℕ → Call State ℕ
unfolding require_guardian activate_pause
execute_pause_proposal c executor approval_id pause_duration_secs = do
  require_guardian c executor
  validate_duration pause_duration_secs
  approval ← ok_or (← gets λ s. s.pending approval_id) Error.approval_not_found
  fail_if approval.executed Error.approval_already_executed
  fail_if (is_expired c approval.expires_at) Error.approval_expired
  fail_if (ltb (length approval.approvals) approval.required_approvals)
      Error.approval_threshold_not_reached
  modify (put_approval (record approval { executed = true }))
  record_id ←
      activate_pause c executor approval.proposed_level approval.proposed_reason
        approval.description pause_duration_secs
  modify (publish (cb_proposal_executed approval_id executor record_id))
  pure record_id

-- `if let Some(mut record) = get_record(..) { .. put_record(..) }` of `lift_pause`.
abbrev pub lift_record : Ctx → Address → Option PauseRecord → State → State
lift_record c caller none s = s
lift_record c caller (some r) s =
    put_record (record r { lifted_at = c.timestamp; lifted_by = push_back r.lifted_by caller }) s

unfoldable pub lift_pause : Ctx → Address → Call State ℕ
unfolding require_admin
lift_pause c caller = do
  require_admin c caller
  state ← gets load_state
  fail_if (not state.is_paused) Error.contract_not_paused
  let record_id = state.current_record_id
  lifted ← gets (λ s. s.records record_id)
  modify (lift_record c caller lifted)
  modify (set_state (record state { is_paused = false; level = advisory; expires_at = 0 }))
  modify (publish (cb_lifted record_id caller))
  pure record_id
