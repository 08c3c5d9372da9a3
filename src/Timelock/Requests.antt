-- ===== src/Timelock/Requests.antt =====
-- Sequences of invocations of timelock.rs's entry points, by any callers at any times.
use chain_logistics.Base.{ℕ, Option, List, [], ◌∷◌}
use chain_logistics.Host.Errors.{Error}
use chain_logistics.Host.Call.{Address, Symbol, Ctx, error_of}
use chain_logistics.Timelock.State.{TimelockAction, TimelockConfig, State}
use chain_logistics.Timelock.Actions.{Callee}
use chain_logistics.Timelock.Handlers.{
  timelock_init, propose_action, approve_action, cancel_action, execute_action,
}

pub data Request : Type 0 where
  init : TimelockConfig → Request
  propose : Address → TimelockAction → ℕ → Request
  approve : Address → ℕ → Request
  cancel : Address → ℕ → Symbol → Request
  execute : Address → ℕ → Request

-- The state that a call leaves, also where it fails: nothing here rests on the host's rollback.
unfoldable pub step : Callee → Ctx → Request → State → State
step f c (init cfg) s = (timelock_init c cfg s).1
step f c (propose a action delay) s = (propose_action c a action delay s).1
step f c (approve a i) s = (approve_action c a i s).1
step f c (cancel a i reason) s = (cancel_action c a i reason s).1
step f c (execute a i) s = (execute_action f c a i s).1

unfoldable pub run : Callee → List (Ctx × Request) → State → State
run f [] s = s
run f ((c, r) ∷ rs) s = run f rs (step f c r s)

-- The error code that a call returns.
unfoldable pub failure : Callee → Ctx → Request → State → Option Error
failure f c (init cfg) s = error_of (timelock_init c cfg s).0
failure f c (propose a action delay) s = error_of (propose_action c a action delay s).0
failure f c (approve a i) s = error_of (approve_action c a i s).0
failure f c (cancel a i reason) s = error_of (cancel_action c a i reason s).0
failure f c (execute a i) s = error_of (execute_action f c a i s).0
