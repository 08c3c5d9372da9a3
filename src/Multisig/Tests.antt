-- ===== src/Multisig/Tests.antt =====
-- multisig.rs on concrete inputs, after its own tests.
use chain_logistics.Base.{
  ℕ, ◌≡◌, refl, Option, true, none, some, List, [], ◌∷◌, str_eq, if◌then◌else◌, has_duplicate,
  contains, false,
}
use chain_logistics.Host.Errors.{Error}
use chain_logistics.Host.Call.{Symbol, Ctx, ok, err, require_all}
use chain_logistics.Multisig.State.{
  Proposal, MultiSigConfig, approved, rejected, pause_executed, State, empty,
}
use chain_logistics.Multisig.Handlers.{
  Callee, init_multisig, reject_proposal, submit_proposal, approve_proposal, execute_proposal,
  kind_event, get_proposal_ids, ids_from,
}
use chain_logistics.Multisig.Requests.{Request, init, reject, submit, approve, execute, step, run}
use chain_logistics.Multisig.Invariant.{MultisigInv}
use chain_logistics.Multisig.Safety.{step-MultisigInv, run-MultisigInv, empty-MultisigInv}
use chain_logistics.Multisig.Execution.{
  ExecutedInTime, execute_proposal_sound, single_signer_never_executes,
}

abbrev moment : ℕ → Ctx
moment t = record { timestamp = t; current_contract_address = 9; authorized = λ _. true }

abbrev returns : Callee
returns _ = true

abbrev hour_for_pause : Symbol → Option ℕ
hour_for_pause kind = if str_eq kind "pause" then some 3600 else none

abbrev requests : List (Ctx × Request)
requests =
    (moment 100, init (1 ∷ 2 ∷ 3 ∷ []) 2 (λ _. none) hour_for_pause)
    ∷ (moment 200, submit 1 7 "pause" [])
    ∷ (moment 300, approve 2 1)
    ∷ (moment 400, submit 3 7 "unpause" [])
    ∷ (moment 400, reject 1 2)
    ∷ (moment 400, reject 2 2)
    ∷ []

abbrev voted : State
voted = run returns requests empty

voted-MultisigInv : MultisigInv voted
voted-MultisigInv = run-MultisigInv returns requests empty empty-MultisigInv

runs :
    ((execute_proposal returns (moment 3899) 1 1 voted).0 ≡ err Error.time_lock_not_expired)
    × ((execute_proposal returns (moment 3900) 1 1 voted).0 ≡ ok tt)
    × ((execute_proposal returns (moment 3900) 1 2 voted).0 ≡ err Error.proposal_rejected)
    × ((get_proposal_ids 0 10 voted).0 ≡ ok (1 ∷ 2 ∷ []))
unfolding run step init_multisig has_duplicate require_all submit_proposal approve_proposal
    reject_proposal execute_proposal kind_event get_proposal_ids ids_from
runs = (refl, refl, refl, refl)

step-MultisigInv_example : MultisigInv (step returns (moment 3900) (execute 1 1) voted)
step-MultisigInv_example =
    step-MultisigInv returns (moment 3900) (execute 1 1) voted voted-MultisigInv

execute_proposal_sound_example : ExecutedInTime returns (moment 3900) 1 1 voted
execute_proposal_sound_example =
    execute_proposal_sound returns (moment 3900) 1 1 voted voted-MultisigInv runs.1

abbrev rejected_proposal : Proposal
rejected_proposal = record {
  id = 2;
  kind = "unpause";
  target = 7;
  args = [];
  proposer = 3;
  created_at = 400;
  approved_at = 0;
  status = rejected;
  approvals = 3 ∷ [];
  rejections = 1 ∷ 2 ∷ [];
}

voted_lem : voted.proposals 2 ≡ some rejected_proposal
unfolding run step init_multisig has_duplicate require_all submit_proposal approve_proposal
    reject_proposal
voted_lem = refl

abbrev alone : List (Ctx × Request)
alone =
    (moment 100, init (1 ∷ []) 1 (λ _. none) (λ _. none))
    ∷ (moment 200, submit 1 7 "pause" [])
    ∷ (moment 300, approve 1 1)
    ∷ []

abbrev alone_config : MultiSigConfig
alone_config = record {
  signers = 1 ∷ [];
  threshold = 1;
  thresholds = λ _. none;
  time_locks = λ _. none;
}

alone_lem : (run returns alone empty).config ≡ some alone_config
unfolding run step init_multisig has_duplicate require_all submit_proposal approve_proposal
alone_lem = refl

single_signer_never_executes_example :
    ¬ ((execute_proposal returns (moment 400) 1 1 (run returns alone empty)).0 ≡ ok tt)
single_signer_never_executes_example =
    single_signer_never_executes returns (moment 400) 1 1 (run returns alone empty)
      (run-MultisigInv returns alone empty empty-MultisigInv) alone_lem refl

abbrev voted_config : MultiSigConfig
voted_config = record {
  signers = 1 ∷ 2 ∷ 3 ∷ [];
  threshold = 2;
  thresholds = λ _. none;
  time_locks = hour_for_pause;
}

abbrev approved_proposal : Proposal
approved_proposal = record {
  id = 1;
  kind = "pause";
  target = 7;
  args = [];
  proposer = 1;
  created_at = 200;
  approved_at = 300;
  status = approved;
  approvals = 1 ∷ 2 ∷ [];
  rejections = [];
}

ready :
    (voted.config ≡ some voted_config)
    × (contains voted_config.signers 2 ≡ true)
    × (voted.proposals 1 ≡ some approved_proposal)
    × (kind_event approved_proposal 2 ≡ some pause_executed)
    × (voted.locks "multisig_exec" ≡ false)
unfolding run step init_multisig has_duplicate require_all submit_proposal approve_proposal
    reject_proposal kind_event contains
ready = (refl, refl, refl, refl, refl)
