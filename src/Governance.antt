-- ===== src/Governance.antt =====
-- The timelock and the upgrade contract together: timelock.rs's call of upgrade.rs's entry points.
mod Delivery
mod Pause
mod Tests
use chain_logistics.Base.{
  ℕ, ◌≡◌, refl, ap, sym, ◌∙◌, subst, Bool, true, false, some, List, [], ◌∷◌, arith, str_eq,
  if◌then◌else◌,
}
use chain_logistics.Host.Call.{Address, Ctx, Call, Outcome, ok, err, trap}
use chain_logistics.Types.{ContractVersion}
use chain_logistics.Timelock.State.{
  TimelockAction, TimelockConfig, TimelockOperation, Invocation, Val, address, version, boolean,
  symbol,
}
use chain_logistics.Timelock.State as TimelockStore
use chain_logistics.Timelock.Actions.{Callee, perform_action}
use chain_logistics.Timelock.Handlers.{execute_action}
use chain_logistics.Timelock.Invariant.{TimelockInv}
use chain_logistics.Timelock.Execution.{Executes, execute_action_sound}
use chain_logistics.Upgrade.State as UpgradeStore
use chain_logistics.Upgrade.Handlers.{
  initiate_upgrade, complete_upgrade, fail_upgrade, emergency_pause, emergency_unpause,
}
use chain_logistics.Upgrade.Safety.{Starts, initiate_upgrade_sound}

abbrev pub UpgradeState : Type 0
UpgradeState = UpgradeStore.State

-- The host's choice of the entry point by its name, with the arguments decoded; anything else panics.
unfoldable pub dispatch : Ctx → Invocation → Call UpgradeState (Unit {0})
dispatch c i s = elim i.args [
  | address a ∷ version v ∷ address n ∷ boolean m ∷ [] ↦
      if str_eq i.fn_name "initiate_upgrade" then initiate_upgrade c a v n m s else (trap, s)
  | address a ∷ symbol reason ∷ [] ↦
      if str_eq i.fn_name "fail_upgrade"
      then fail_upgrade c a reason s
      else if str_eq i.fn_name "emergency_pause"
      then emergency_pause c a reason s
      else (trap, s)
  | address a ∷ [] ↦
      if str_eq i.fn_name "complete_upgrade"
      then complete_upgrade c a s
      else if str_eq i.fn_name "emergency_unpause"
      then emergency_unpause c a s
      else (trap, s)
  | _ ↦ (trap, s)
]

abbrev pub is_ok : Outcome (Unit {0}) → Bool
is_ok (ok _) = true
is_ok _ = false

-- The upgrade contract in this state, as the timelock's callee.
abbrev pub answers : Ctx → UpgradeState → Callee
answers c u i = is_ok (dispatch c i u).0

pub performs :
    (f : Callee) (c : Ctx) (a : Address) (i : ℕ) (s : TimelockStore.State) (cfg : TimelockConfig)
    (op : TimelockOperation)
    → s.config ≡ some cfg
    → s.operations i ≡ some op
    → (execute_action f c a i s).0 ≡ ok tt
    → (perform_action f c cfg op.action s).0 ≡ ok tt
unfolding execute_action
performs f c a i s cfg op e m h = ground arith

starts :
    (c d : Ctx) (cfg : TimelockConfig) (v : ContractVersion) (n : Address) (m : Bool)
    (s : TimelockStore.State) (u : UpgradeState)
    → (perform_action (answers d u) c cfg (TimelockStore.initiate_upgrade v n m) s).0 ≡ ok tt
    → (initiate_upgrade d c.current_contract_address v n m u).0 ≡ ok tt
unfolding perform_action dispatch
starts c d cfg v n m s u h = ground arith

-- In a state of the timelock that satisfies its invariant, if the execution of an operation that
-- starts an upgrade succeeds against the upgrade contract, then threshold distinct signers had
-- approved it, a day at least after its proposal and in its window; and in the upgrade contract,
-- which knows the timelock as one that may act, the upgrade is started: to a version newer than the
-- present one, by one major step at most, outside an emergency pause and another upgrade.
pub timelocked_upgrade_sound :
    (c d : Ctx) (a : Address) (i : ℕ) (s : TimelockStore.State) (u : UpgradeState)
    (op : TimelockOperation) (v : ContractVersion) (n : Address) (m : Bool)
    → TimelockInv s
    → s.operations i ≡ some op
    → op.action ≡ TimelockStore.initiate_upgrade v n m
    → (execute_action (answers d u) c a i s).0 ≡ ok tt
    → ((cfg : TimelockConfig) × (s.config ≡ some cfg) × Executes c a cfg op)
      × Starts d c.current_contract_address v n m u
          (initiate_upgrade d c.current_contract_address v n m u).1
timelocked_upgrade_sound c d a i s u op v n m inv e w h =
    let (cfg, op', e', q, x, _, _) = execute_action_sound (answers d u) c a i s inv h in
    let same : op' ≡ op = cc in
    let done = performs (answers d u) c a i s cfg op e' e h in
    (
      (cfg, e', subst (Executes c a cfg) same x),
      initiate_upgrade_sound d c.current_contract_address v n m u (
          starts c d cfg v n m s u (
            subst (λ (t : TimelockAction). (perform_action (answers d u) c cfg t s).0 ≡ ok tt) w
              done)),
    )
