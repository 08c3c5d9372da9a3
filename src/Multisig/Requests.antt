-- ===== src/Multisig/Requests.antt =====
-- Sequences of invocations of multisig.rs's entry points, by any callers at any times.
use chain_logistics.Base.{ℕ, Option, List, [], ◌∷◌}
use chain_logistics.Host.Call.{Address, Symbol, Ctx}
use chain_logistics.Multisig.State.{Val, State}
use chain_logistics.Multisig.Handlers.{
  Callee, init_multisig, reject_proposal, submit_proposal, approve_proposal, execute_proposal,
}

pub data Request : Type 0 where
  init : List Address → ℕ → (Symbol → Option ℕ) → (Symbol → Option ℕ) → Request
  reject : Address → ℕ → Request
  submit : Address → Address → Symbol → List Val → Request
  approve : Address → ℕ → Request
  execute : Address → ℕ → Request

-- The state that a call leaves, also where it fails: nothing here rests on the host's rollback.
unfoldable pub step : Callee → Ctx → Request → State → State
step f c (init signers threshold thresholds time_locks) s =
    (init_multisig c signers threshold thresholds time_locks s).1
step f c (reject a i) s = (reject_proposal c a i s).1
step f c (submit a target kind args) s = (submit_proposal c a target kind args s).1
step f c (approve a i) s = (approve_proposal c a i s).1
step f c (execute a i) s = (execute_proposal f c a i s).1

unfoldable pub run : Callee → List (Ctx × Request) → State → State
run f [] s = s
run f ((c, r) ∷ rs) s = run f rs (step f c r s)
