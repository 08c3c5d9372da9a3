-- ===== src/Timelock/Final.antt =====
-- Executed and cancelled operations of timelock.rs stay as they are, and failing calls change
-- nothing.
use chain_logistics.Base.{
  ℕ, ◌≡◌, refl, ◌≢◌, ◌⊎◌, inl, inr, some, List, [], ◌∷◌, arith, Option-cases,
}
use chain_logistics.Host.Errors.{Error}
use chain_logistics.Host.Call.{Address, Ctx, ok, trap, require_all_cases}
use chain_logistics.Timelock.State.{
  executed, TimelockConfig, TimelockAction, pause_main, TimelockOperation, State,
}
use chain_logistics.Timelock.Actions.{Callee, perform_action}
use chain_logistics.Timelock.Handlers.{
  timelock_init, propose_action, approve_action, cancel_action, execute_action,
}
use chain_logistics.Timelock.Requests.{
  Request, init, propose, approve, cancel, execute, step, run, failure,
}
use chain_logistics.Timelock.Invariant.{TimelockInv, step-TimelockInv}
use chain_logistics.Timelock.Execution.{IsFinal, step-IsFinal, execute_action_sound}

step-IsFinal_of_Inv :
    (f : Callee) (c : Ctx) (r : Request) (s : State) (i : ℕ) (op : TimelockOperation)
    → TimelockInv s
    → s.operations i ≡ some op
    → IsFinal op
    → (step f c r s).operations i ≡ some op
step-IsFinal_of_Inv f c r s i op (inl (_, unset)) m t = absurd (cc (unset i))
step-IsFinal_of_Inv f c r s i op (inr (cfg, e, _, all)) m t =
    step-IsFinal f c r s cfg i op e all m t

-- Whatever is requested later, by whomever and whenever, an executed or a cancelled operation stays
-- exactly as it is.
pub run-IsFinal :
    (f : Callee) (rs : List (Ctx × Request)) (s : State) (i : ℕ) (op : TimelockOperation)
    → TimelockInv s
    → s.operations i ≡ some op
    → IsFinal op
    → (run f rs s).operations i ≡ some op
unfolding run
run-IsFinal f [] s i op v m t = m
run-IsFinal f ((c, r) ∷ rs) s i op v m t =
    run-IsFinal f rs (step f c r s) i op (step-TimelockInv f c r s v)
      (step-IsFinal_of_Inv f c r s i op v m t) t

execute_final :
    (f : Callee) (c : Ctx) (a : Address) (i : ℕ) (s : State) (op : TimelockOperation)
    → s.operations i ≡ some op
    → IsFinal op
    → (execute_action f c a i s).0 ≢ ok tt
unfolding execute_action
execute_final f c a i s op m t h = ground arith

execute-TimelockInv :
    (f : Callee) (c : Ctx) (a : Address) (i : ℕ) (s : State)
    → TimelockInv s
    → TimelockInv (execute_action f c a i s).1
execute-TimelockInv f c a i s v = unfold step in step-TimelockInv f c (execute a i) s v

-- A failing callee makes the timelock panic: it returns no error code of its own.
perform_action_no_error :
    (f : Callee) (c : Ctx) (cfg : TimelockConfig) (action : TimelockAction) (s : State)
    → let r = (perform_action f c cfg action s).0 in (r ≡ ok tt) ⊎ (r ≡ trap)
unfolding perform_action
perform_action_no_error f c cfg pause_main s = ground arith
perform_action_no_error f c cfg _ s = ground arith

-- Once an operation has been executed, no later execution of it succeeds, whatever is requested in
-- between.
pub execute_once :
    (f g : Callee) (c d : Ctx) (a b : Address) (i : ℕ) (rs : List (Ctx × Request)) (s : State)
    → TimelockInv s
    → (execute_action f c a i s).0 ≡ ok tt
    → (execute_action g d b i (run g rs (execute_action f c a i s).1)).0 ≢ ok tt
execute_once f g c d a b i rs s v h =
    let (cfg, op, _, _, _, _, stored) = execute_action_sound f c a i s v h in
    let s' : State = (execute_action f c a i s).1 in
    let v' : TimelockInv s' = execute-TimelockInv f c a i s v in
    let op' : TimelockOperation = record op { status = executed } in
    execute_final g d b i (run g rs s') op' (run-IsFinal g rs s' i op' v' stored (inl refl))
      (inl refl)

-- A call that returns an error code leaves the contract's state as it was.
pub failure_unchanged :
    (f : Callee) (c : Ctx) (r : Request) (s : State) {e : Error}
    → failure f c r s ≡ some e
    → step f c r s ≡ s
unfolding step failure
failure_unchanged f c (init cfg) s h =
    unfold timelock_init in
    elim (require_all_cases c cfg.signers s) [ inl p ↦ ground arith | inr p ↦ ground arith ]
failure_unchanged f c (propose a action delay) s h = unfold propose_action in ground arith
failure_unchanged f c (approve a i) s h = unfold approve_action in ground arith
failure_unchanged f c (cancel a i reason) s h = unfold cancel_action in ground arith
failure_unchanged f c (execute a i) s h = elim (Option-cases s.config) [
  | inl m ↦ unfold execute_action in ground arith
  | inr (cfg, m) ↦ elim (Option-cases (s.operations i)) [
    | inl n ↦ unfold execute_action in ground arith
    | inr (op, n) ↦
        unfold execute_action in ground (arith, perform_action_no_error f c cfg op.action s)
  ]
]
