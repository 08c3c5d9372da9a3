-- ===== src/Governance/Pause.antt =====
-- The timelock and the main contract together: timelock.rs's call of contract.rs's entry points.
use chain_logistics.Base.{
  ℕ, ◌≡◌, ap, subst, true, false, some, [], ◌∷◌, arith, str_eq, if◌then◌else◌,
}
use chain_logistics.Host.Errors.{Error}
use chain_logistics.Host.Call.{Address, Ctx, Call, ok, err, trap}
use chain_logistics.Timelock.State.{
  TimelockAction, pause_main, TimelockConfig, TimelockOperation, Invocation, address,
}
use chain_logistics.Timelock.State as TimelockStore
use chain_logistics.Timelock.Actions.{Callee, perform_action}
use chain_logistics.Timelock.Handlers.{execute_action}
use chain_logistics.Timelock.Invariant.{TimelockInv}
use chain_logistics.Timelock.Execution.{Executes, execute_action_sound}
use chain_logistics.Tracking.Requests.{NewEvent}
use chain_logistics.Main.State as MainStore
use chain_logistics.Main.Handlers.{
  pause, unpause, transfer_admin, set_multisig_contract, set_timelock_contract,
}
use chain_logistics.Main.Events.{AuthContract, add_tracking_event}
use chain_logistics.Main.Requests.{IsController, add}
use chain_logistics.Main.Control.{require_admin_sound, require_admin_state}
use chain_logistics.Governance.{is_ok, performs}

abbrev pub MainState : Type 0
MainState = MainStore.State

-- The host's choice of an administrative entry point by its name, with the arguments decoded.
unfoldable pub dispatch_main : Ctx → Invocation → Call MainState (Unit {0})
dispatch_main c i s = elim i.args [
  | address a ∷ address b ∷ [] ↦
      if str_eq i.fn_name "set_multisig_contract"
      then set_multisig_contract c a b s
      else if str_eq i.fn_name "set_timelock_contract"
      then set_timelock_contract c a b s
      else if str_eq i.fn_name "transfer_admin"
      then transfer_admin c a b s
      else (trap, s)
  | address a ∷ [] ↦
      if str_eq i.fn_name "pause"
      then pause c a s
      else if str_eq i.fn_name "unpause"
      then unpause c a s
      else (trap, s)
  | _ ↦ (trap, s)
]

-- The main contract in this state, as the timelock's callee.
abbrev pub main_answers : Ctx → MainState → Callee
main_answers c m i = is_ok (dispatch_main c i m).0

pauses :
    (c d : Ctx) (cfg : TimelockConfig) (s : TimelockStore.State) (m : MainState)
    → (perform_action (main_answers d m) c cfg pause_main s).0 ≡ ok tt
    → (pause d c.current_contract_address m).0 ≡ ok tt
unfolding perform_action dispatch_main
pauses c d cfg s m h = ground arith

pause_ok :
    (d : Ctx) (a : Address) (m : MainState)
    → (pause d a m).0 ≡ ok tt
    → IsController d a m
      × (MainStore.is_paused m ≡ false)
      × ((pause d a m).1 ≡ record m { paused = some true })
unfolding pause
pause_ok d a m h =
    let same = require_admin_state d a m in
    (
      require_admin_sound d a m (ground (arith, h)),
      ground (arith, h, same),
      ground (arith, h, same),
    )

add_paused :
    (auth : AuthContract) (c : Ctx) (x : NewEvent) (m : MainState)
    → MainStore.is_paused m ≡ true
    → add auth c x m ≡ (err Error.contract_paused, m)
unfolding add_tracking_event
add_paused auth c x m h = ground (arith, h)

-- In a state of the timelock that satisfies its invariant, if the execution of an operation that
-- pauses the main contract succeeds against the main contract, then threshold distinct signers had
-- approved it, a day at least after its proposal and in its window; the main contract was not paused,
-- knows the timelock as one that may act, and is now paused with nothing else changed; and it
-- adds no event then, whoever asks and whatever the authorization contract answers.
pub timelocked_pause_sound :
    (c d : Ctx) (a : Address) (i : ℕ) (s : TimelockStore.State) (m : MainState)
    (op : TimelockOperation) (auth : AuthContract) (e : Ctx) (x : NewEvent)
    → TimelockInv s
    → s.operations i ≡ some op
    → op.action ≡ pause_main
    → (execute_action (main_answers d m) c a i s).0 ≡ ok tt
    → let m' : MainState = (pause d c.current_contract_address m).1 in
      ((cfg : TimelockConfig) × (s.config ≡ some cfg) × Executes c a cfg op)
      × IsController d c.current_contract_address m
      × (MainStore.is_paused m ≡ false)
      × (m' ≡ record m { paused = some true })
      × (add auth e x m' ≡ (err Error.contract_paused, m'))
timelocked_pause_sound c d a i s m op auth e x inv q w h =
    let (cfg, op', e', q', k, _, _) = execute_action_sound (main_answers d m) c a i s inv h in
    let same : op' ≡ op = cc in
    let done = performs (main_answers d m) c a i s cfg op e' q h in
    let called = pauses c d cfg s m (
      subst (λ (t : TimelockAction). (perform_action (main_answers d m) c cfg t s).0 ≡ ok tt) w
        done) in
    let (controller, open_before, after) = pause_ok d c.current_contract_address m called in
    let m' : MainState = (pause d c.current_contract_address m).1 in
    (
      (cfg, e', subst (Executes c a cfg) same k),
      controller,
      open_before,
      after,
      add_paused auth e x m' (ap MainStore.is_paused after),
    )
