-- ===== src/Governance/Delivery.antt =====
-- A pause of the main contract that the timelock's signers want takes place.
use chain_logistics.Base.{
  ℕ, ◌+◌, ◌≤◌, ◌≡◌, refl, ap, true, false, some, none, List, [], ◌∷◌, arith, length,
}
use chain_logistics.Host.Call.{Address, Ctx, ok}
use chain_logistics.Timelock.State.{
  executed, queued, pause_main, TimelockConfig, TimelockOperation, State, get_next_operation_id,
}
use chain_logistics.Timelock.Actions.{perform_action}
use chain_logistics.Timelock.Handlers.{propose_action, execute_action}
use chain_logistics.Timelock.Lifecycle.{
  IsSigned, IsProposable, AllFresh, approve_all, approvals_of, proposed, propose_action_opens,
  approve_all_queues,
}
use chain_logistics.Main.State as MainStore
use chain_logistics.Main.Handlers.{pause}
use chain_logistics.Governance.Pause.{MainState, dispatch_main, main_answers}

-- The main contract runs, and knows the timelock, which has authorised the call.
pub record IsPausable (d : Ctx) (timelock : Address) (m : MainState) : Type 0 where
  pub running : MainStore.is_paused m ≡ false
  pub has_admin : ¬ (m.admin ≡ none)
  pub known : m.timelock_contract ≡ some timelock
  pub asked : d.authorized timelock ≡ true

pause_succeeds :
    (d : Ctx) (a : Address) (m : MainState)
    → IsPausable d a m
    → pause d a m ≡ (ok tt, record m { paused = some true })
unfolding pause
pause_succeeds d a m h = ground (arith, h.running, h.has_admin, h.known, h.asked)

perform_pause :
    (c d : Ctx) (cfg : TimelockConfig) (s : State) (m : MainState)
    → (pause d c.current_contract_address m).0 ≡ ok tt
    → ((perform_action (main_answers d m) c cfg pause_main s).0 ≡ ok tt)
      × ((perform_action (main_answers d m) c cfg pause_main s).1.operations ≡ s.operations)
unfolding perform_action dispatch_main
perform_pause c d cfg s m h = ground (arith, h)

execute_pause :
    (c d : Ctx) (a : Address) (i : ℕ) (s : State) (m : MainState) (cfg : TimelockConfig)
    (op : TimelockOperation)
    → s.config ≡ some cfg
    → IsSigned cfg c a
    → s.operations i ≡ some op
    → op.id ≡ i
    → op.action ≡ pause_main
    → op.status ≡ queued
    → op.ready_at ≤ c.timestamp
    → c.timestamp ≤ op.execute_by
    → (pause d c.current_contract_address m).0 ≡ ok tt
    → let r = execute_action (main_answers d m) c a i s in
      (r.0 ≡ ok tt) × (r.1.operations i ≡ some (record op { status = executed }))
unfolding execute_action
execute_pause c d a i s m cfg op e signed st n w q lo hi h =
    let (done, kept) = perform_pause c d cfg s m h in ground (arith, done, kept, signed, w)

-- From any state of a timelock that is set up and a main contract that is not paused and knows it:
-- if a signer proposes to pause the main contract, with an admitted delay and without an overflow
-- of times and numbers, as many signers as the threshold asks for approve it, each once, the
-- proposer's own approval counted, and a signer executes it in its window, each with an authorised
-- call, then the execution succeeds, marks the operation as executed, with these approvals, and its
-- call of the main contract's pause returns and leaves that contract paused, with nothing else
-- changed.
pub timelocked_pause_succeeds :
    (c0 c d : Ctx) (p a : Address) (delay : ℕ) (rs : List (Ctx × Address)) (cfg : TimelockConfig)
    (s : State) (m : MainState)
    → s.config ≡ some cfg
    → IsSigned cfg c0 p
    → IsProposable c0 delay cfg s
    → AllFresh cfg (p ∷ []) rs
    → 1 + length rs ≡ cfg.threshold
    → IsSigned cfg c a
    → c0.timestamp + delay ≤ c.timestamp
    → c.timestamp ≤ c0.timestamp + delay + cfg.grace_period_seconds
    → IsPausable d c.current_contract_address m
    → let i : ℕ = get_next_operation_id s in
      let s' : State = approve_all i rs (propose_action c0 p pause_main delay s).1 in
      let r = execute_action (main_answers d m) c a i s' in
      (r.0 ≡ ok tt)
      × (r.1.operations i
          ≡ some (record (proposed c0 p pause_main delay cfg s) {
            approvals = approvals_of (p ∷ []) rs;
            status = executed;
          }))
      × (pause d c.current_contract_address m ≡ (ok tt, record m { paused = some true }))
timelocked_pause_succeeds c0 c d p a delay rs cfg s m e signed ready fresh l executor lo hi able =
    let i : ℕ = get_next_operation_id s in
    let op : TimelockOperation = proposed c0 p pause_main delay cfg s in
    let paused = pause_succeeds d c.current_contract_address m able in
    let (e1, m1) = propose_action_opens c0 p pause_main delay s cfg e signed ready in
    let s1 : State = (propose_action c0 p pause_main delay s).1 in
    let (e2, m2) = approve_all_queues i rs s1 cfg op (p ∷ []) e1 m1 refl fresh l in
    let (done, marked) =
      execute_pause c d a i (approve_all i rs s1) m cfg
        (record op { approvals = approvals_of (p ∷ []) rs; status = queued }) e2 executor m2 refl
        refl refl lo hi (ap (λ x. x.0) paused) in
    (done, marked, paused)
