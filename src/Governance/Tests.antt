-- ===== src/Governance/Tests.antt =====
-- The timelock with the upgrade contract and with the main contract, on concrete inputs.
use chain_logistics.Base.{
  ℕ, ◌≡◌, refl, ◌*◌, true, arith, contains, false, some, none, List, [], ◌∷◌, ◌==◌, has_duplicate,
}
use chain_logistics.Host.Errors.{Error}
use chain_logistics.Host.Call.{Address, Ctx, require_all, ok, err}
use chain_logistics.Types.{ContractVersion}
use chain_logistics.Timelock.State.{
  TimelockConfig, TimelockOperation, queued, executed, get_next_operation_id, initiate_upgrade,
  pause_main, State, empty,
}
use chain_logistics.Timelock.Actions.{perform_action}
use chain_logistics.Timelock.Handlers.{
  timelock_init, propose_action, approve_action, execute_action,
}
use chain_logistics.Timelock.Requests.{Request, init, propose, approve, step, run}
use chain_logistics.Timelock.Invariant.{TimelockInv, run-TimelockInv, empty-TimelockInv}
use chain_logistics.Timelock.Execution.{Executes}
use chain_logistics.Upgrade.Handlers.{
  initiate_upgrade as start_upgrade, require_admin, validate_version_upgrade,
}
use chain_logistics.Upgrade.Safety.{Starts}
use chain_logistics.Tracking.Requests.{NewEvent}
use chain_logistics.Main.State as MainStore
use chain_logistics.Main.Handlers.{pause, require_admin as require_main_admin}
use chain_logistics.Main.Requests.{IsController, add}
use chain_logistics.Timelock.Lifecycle.{
  IsSigned, IsProposable, AllFresh, approve_all, approvals_of, proposed,
}
use chain_logistics.Governance.Delivery.{IsPausable, timelocked_pause_succeeds}
use chain_logistics.Governance.Pause.{
  MainState, dispatch_main, main_answers, timelocked_pause_sound,
}
use chain_logistics.Governance.{UpgradeState, dispatch, answers, timelocked_upgrade_sound}

-- The timelock is the contract 9, the upgrade contract the contract 8.
abbrev moment : ℕ → Ctx
moment t = record { timestamp = t; current_contract_address = 9; authorized = λ _. true }

abbrev called : ℕ → Ctx
called t = record { timestamp = t; current_contract_address = 8; authorized = λ a. a == 9 }

abbrev config : TimelockConfig
config = record {
  signers = 1 ∷ 2 ∷ 3 ∷ [];
  threshold = 2;
  min_delay_seconds = 86400;
  max_delay_seconds = 3 * 86400;
  grace_period_seconds = 86400;
  main_contract = 7;
  upgrade_contract = 8;
}

abbrev two : ContractVersion
two = record { major = 2; minor = 0; patch = 0 }

abbrev requests : List (Ctx × Request)
requests =
    (moment 1000000, init config)
    ∷ (moment 1000000, propose 1 (initiate_upgrade two 6 true) 86400)
    ∷ (moment 1000500, approve 2 1)
    ∷ []

abbrev deployed : UpgradeState
deployed = record {
  version = none;
  info = none;
  status = none;
  paused = none;
  admin = some 5;
  main_contract = none;
  multisig_contract = none;
  timelock_contract = some 9;
  main_calls = [];
  events = [];
}

abbrev waiting : State
waiting = run (answers (called 1000000) deployed) requests empty

waiting-TimelockInv : TimelockInv waiting
waiting-TimelockInv =
    run-TimelockInv (answers (called 1000000) deployed) requests empty empty-TimelockInv

abbrev operation : TimelockOperation
operation = record {
  id = 1;
  proposer = 1;
  action = initiate_upgrade two 6 true;
  created_at = 1000000;
  ready_at = 1086400;
  execute_by = 1172800;
  status = queued;
  approvals = 1 ∷ 2 ∷ [];
  required_approvals = 2;
  is_executed = false;
}

ready :
    (waiting.operations 1 ≡ some operation)
    × ((execute_action (answers (called 1086400) deployed) (moment 1086400) 3 1 waiting).0 ≡ ok tt)
unfolding run step timelock_init has_duplicate require_all propose_action approve_action
    execute_action perform_action dispatch start_upgrade require_admin validate_version_upgrade
ready = (refl, refl)

timelocked_upgrade_sound_example :
    ((cfg : TimelockConfig) × (waiting.config ≡ some cfg)
      × Executes (moment 1086400) 3 cfg operation)
    × Starts
        (called 1086400)
        9
        two
        6
        true
        deployed
        (start_upgrade (called 1086400) 9 two 6 true deployed).1
timelocked_upgrade_sound_example =
    timelocked_upgrade_sound (moment 1086400) (called 1086400) 3 1 waiting deployed operation two 6
      true waiting-TimelockInv ready.0 refl ready.1

abbrev pause_requests : List (Ctx × Request)
pause_requests =
    (moment 1000000, init config)
    ∷ (moment 1000000, propose 1 pause_main 86400)
    ∷ (moment 1000500, approve 2 1)
    ∷ []

-- The main contract is the contract 7 and knows the timelock.
abbrev open_main : MainState
open_main = record MainStore.empty { admin = some 5; timelock_contract = some 9 }

abbrev asked : ℕ → Ctx
asked t = record { timestamp = t; current_contract_address = 7; authorized = λ a. a == 9 }

abbrev waiting_pause : State
waiting_pause = run (main_answers (asked 1000000) open_main) pause_requests empty

abbrev pause_operation : TimelockOperation
pause_operation = record operation { action = pause_main }

pause_ready :
    (waiting_pause.operations 1 ≡ some pause_operation)
    × ((execute_action
          (main_answers (asked 1086400) open_main)
          (moment 1086400)
          3
          1
          waiting_pause).0
        ≡ ok tt)
unfolding run step timelock_init has_duplicate require_all propose_action approve_action
    execute_action perform_action dispatch_main pause require_main_admin
pause_ready = (refl, refl)

abbrev delivery : NewEvent
delivery = record {
  by = 1;
  product = "PROD1";
  kind = "delivered";
  location = "Port";
  data_hash = [];
  note = "";
  metadata = [];
}

timelocked_pause_sound_example :
    let m' : MainState = (pause (asked 1086400) 9 open_main).1 in
    ((cfg : TimelockConfig) × (waiting_pause.config ≡ some cfg)
      × Executes (moment 1086400) 3 cfg pause_operation)
    × IsController (asked 1086400) 9 open_main
    × (MainStore.is_paused open_main ≡ false)
    × (m' ≡ record open_main { paused = some true })
    × (add (λ _ _ _. some true) (asked 1086500) delivery m' ≡ (err Error.contract_paused, m'))
timelocked_pause_sound_example =
    timelocked_pause_sound (moment 1086400) (asked 1086400) 3 1 waiting_pause open_main
      pause_operation (λ _ _ _. some true) (asked 1086500) delivery
      (run-TimelockInv (main_answers (asked 1000000) open_main) pause_requests empty
        empty-TimelockInv)
      pause_ready.0 refl pause_ready.1

abbrev set_up : State
set_up = run (main_answers (asked 1000000) open_main) ((moment 1000000, init config) ∷ []) empty

abbrev approvers : List (Ctx × Address)
approvers = (moment 1000500, 2) ∷ []

set_up_config : (set_up.config ≡ some config) × (get_next_operation_id set_up ≡ 1)
unfolding run step timelock_init has_duplicate require_all
set_up_config = (refl, refl)

signers_sign :
    IsSigned config (moment 1000000) 1
    × AllFresh config (1 ∷ []) approvers
    × IsSigned config (moment 1086400) 3
unfolding contains
signers_sign = ((refl, refl), ((refl, refl), refl, tt), (refl, refl))

proposable : IsProposable (moment 1000000) 86400 config set_up
unfolding run step timelock_init has_duplicate require_all
proposable = record {
  long_enough = omega arith;
  short_enough = omega arith;
  numbered = omega arith;
  timed = omega arith;
}

pausable : IsPausable (asked 1086400) 9 open_main
pausable = record { running = refl; has_admin = λ h. cc; known = refl; asked = refl }

timelocked_pause_succeeds_example :
    let i : ℕ = get_next_operation_id set_up in
    let s' : State =
      approve_all i approvers (propose_action (moment 1000000) 1 pause_main 86400 set_up).1 in
    let r = execute_action (main_answers (asked 1086400) open_main) (moment 1086400) 3 i s' in
    (r.0 ≡ ok tt)
    × (r.1.operations i
        ≡ some (record (proposed (moment 1000000) 1 pause_main 86400 config set_up) {
          approvals = approvals_of (1 ∷ []) approvers;
          status = executed;
        }))
    × (pause (asked 1086400) 9 open_main ≡ (ok tt, record open_main { paused = some true }))
timelocked_pause_succeeds_example =
    timelocked_pause_succeeds (moment 1000000) (moment 1086400) (asked 1086400) 1 3 86400 approvers
      config set_up open_main set_up_config.0 signers_sign.0 proposable signers_sign.1 refl
      signers_sign.2 (omega arith) (omega arith) pausable
