-- ===== src/Timelock/Tests.antt =====
-- timelock.rs on concrete inputs, after its own tests.
use chain_logistics.Base.{ℕ, ◌≡◌, refl, ◌*◌, true, false, some, List, [], ◌∷◌, has_duplicate, false}
use chain_logistics.Host.Errors.{Error}
use chain_logistics.Host.Call.{Ctx, require_all, ok, err}
use chain_logistics.Timelock.State.{
  TimelockConfig, TimelockOperation, cancelled, pause_main, State, empty,
}
use chain_logistics.Timelock.Actions.{Callee, perform_action}
use chain_logistics.Timelock.Handlers.{
  timelock_init, propose_action, approve_action, cancel_action, execute_action,
}
use chain_logistics.Timelock.Requests.{
  Request, init, propose, approve, cancel, execute, step, run, failure,
}
use chain_logistics.Timelock.Invariant.{
  TimelockInv, step-TimelockInv, run-TimelockInv, empty-TimelockInv,
}
use chain_logistics.Timelock.Execution.{ExecutedInWindow, execute_action_sound}
use chain_logistics.Timelock.Final.{failure_unchanged}

abbrev moment : ℕ → Ctx
moment t = record { timestamp = t; current_contract_address = 9; authorized = λ _. true }

abbrev returns : Callee
returns _ = true

abbrev config : TimelockConfig
config = record {
  signers = 1 ∷ 2 ∷ 3 ∷ [];
  threshold = 2;
  min_delay_seconds = 86400;
  max_delay_seconds = 3 * 86400;
  grace_period_seconds = 86400;
  main_contract = 7;
  upgrade_contract = 8;
}

abbrev requests : List (Ctx × Request)
requests =
    (moment 1000000, init config)
    ∷ (moment 1000000, propose 1 pause_main 86400)
    ∷ (moment 1000500, approve 2 1)
    ∷ []

abbrev waiting : State
waiting = run returns requests empty

waiting-TimelockInv : TimelockInv waiting
waiting-TimelockInv = run-TimelockInv returns requests empty empty-TimelockInv

-- The window opens a day after the proposal and closes a day later.
window :
    ((execute_action returns (moment 1086399) 1 1 waiting).0 ≡ err Error.timelock_not_ready)
    × ((execute_action returns (moment 1086400) 1 1 waiting).0 ≡ ok tt)
    × ((execute_action returns (moment 1172800) 3 1 waiting).0 ≡ ok tt)
    × ((execute_action returns (moment 1172801) 3 1 waiting).0 ≡ err Error.timelock_expired)
unfolding run step timelock_init has_duplicate require_all propose_action approve_action
    execute_action perform_action
window = (refl, refl, refl, refl)

executes : (execute_action returns (moment 1086400) 1 1 waiting).0 ≡ ok tt
executes = window.1

step-TimelockInv_example : TimelockInv (step returns (moment 1086400) (execute 1 1) waiting)
step-TimelockInv_example =
    step-TimelockInv returns (moment 1086400) (execute 1 1) waiting waiting-TimelockInv

execute_action_sound_example : ExecutedInWindow returns (moment 1086400) 1 1 waiting
execute_action_sound_example =
    execute_action_sound returns (moment 1086400) 1 1 waiting waiting-TimelockInv executes

abbrev vetoed : State
vetoed = step returns (moment 1000600) (cancel 3 1 "veto") waiting

abbrev vetoed_operation : TimelockOperation
vetoed_operation = record {
  id = 1;
  proposer = 1;
  action = pause_main;
  created_at = 1000000;
  ready_at = 1086400;
  execute_by = 1172800;
  status = cancelled;
  approvals = 1 ∷ 2 ∷ [];
  required_approvals = 2;
  is_executed = false;
}

vetoed_lem : vetoed.operations 1 ≡ some vetoed_operation
unfolding run step timelock_init has_duplicate require_all propose_action approve_action
    cancel_action
vetoed_lem = refl

abbrev later : List (Ctx × Request)
later = (moment 1086400, execute 1 1) ∷ (moment 1086400, approve 3 1) ∷ []

early : failure returns (moment 1000600) (execute 1 1) waiting ≡ some Error.timelock_not_ready
unfolding run step failure timelock_init has_duplicate require_all propose_action approve_action
    execute_action
early = refl

failure_unchanged_example : step returns (moment 1000600) (execute 1 1) waiting ≡ waiting
failure_unchanged_example = failure_unchanged returns (moment 1000600) (execute 1 1) waiting early
