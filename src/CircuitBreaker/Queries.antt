-- ===== src/CircuitBreaker/Queries.antt =====
-- The status queries of circuit_breaker.rs. `get_state` writes: it ends an expired pause.
use chain_logistics.Base.{ℕ, Bool, true, false, not, ◌&&◌, Option, none, some, if◌then◌else◌}
use chain_logistics.Host.Errors.{Error}
use chain_logistics.Host.Call.{Address, Ctx, Call, ok, ◌>>=◌, pure, ok_or, gets}
use chain_logistics.CircuitBreaker.State.{
  PauseLevel, advisory, partial, emergency, PauseRecord, PauseApproval, CircuitBreakerState, State,
  load_state, set_state, put_record, publish, cb_expired,
}
use chain_logistics.CircuitBreaker.Handlers.{is_expired}

abbrev pub expire_record : Ctx → Option PauseRecord → State → State
expire_record c none s = s
expire_record c (some r) s = put_record (record r { lifted_at = c.timestamp }) s

unfoldable pub get_state : Ctx → Call State CircuitBreakerState
get_state c s =
    let state = load_state s in
    let s' = expire_record c (s.records state.current_record_id) s in
    let s'' = publish (cb_expired state.current_record_id c.timestamp) s' in
    let state' : CircuitBreakerState = record state {
      is_paused = false;
      level = advisory;
      expires_at = 0;
    } in
    if state.is_paused && is_expired c state.expires_at
    then (ok state', set_state state' s'')
    else (ok state, s)

abbrev pub blocks_nothing : PauseLevel → Bool
blocks_nothing advisory = true
blocks_nothing _ = false

abbrev pub blocks_writes_only : PauseLevel → Bool
blocks_writes_only advisory = true
blocks_writes_only partial = true
blocks_writes_only _ = false

abbrev pub is_emergency : PauseLevel → Bool
is_emergency emergency = true
is_emergency _ = false

unfoldable pub is_paused : Ctx → Call State Bool
unfolding get_state
is_paused c = do state ← get_state c; pure state.is_paused

unfoldable pub check_writes_allowed : Ctx → Call State Bool
unfolding get_state
check_writes_allowed c = do
  state ← get_state c
  pure (if not state.is_paused then true else blocks_nothing state.level)

unfoldable pub check_mutations_allowed : Ctx → Call State Bool
unfolding get_state
check_mutations_allowed c = do
  state ← get_state c
  pure (if not state.is_paused then true else blocks_writes_only state.level)

unfoldable pub check_reads_allowed : Ctx → Call State Bool
unfolding get_state
check_reads_allowed c = do
  state ← get_state c
  pure (if not state.is_paused then true else not (is_emergency state.level))

unfoldable pub get_pause_record : ℕ → Call State PauseRecord
get_pause_record record_id = do ok_or (← gets λ s. s.records record_id) Error.pause_record_not_found

unfoldable pub get_pause_approval : ℕ → Call State PauseApproval
get_pause_approval approval_id = do
  ok_or (← gets λ s. s.pending approval_id) Error.approval_not_found

unfoldable pub get_admin : Call State Address
get_admin = do ok_or (← gets λ s. s.admin) Error.circuit_breaker_not_initialized
