-- ===== src/CircuitBreaker/Tests.antt =====
-- circuit_breaker.rs on concrete inputs.
use chain_logistics.Base.{ℕ, ◌≡◌, refl, true, some, List, [], ◌∷◌, has_duplicate}
use chain_logistics.Host.Errors.{Error}
use chain_logistics.Host.Call.{Ctx, ok, err}
use chain_logistics.CircuitBreaker.State.{
  partial, full, emergency, security_breach, maintenance, PauseRecord, State, empty, load_state,
  find_index, remove_at,
}
use chain_logistics.CircuitBreaker.Handlers.{
  initialize, remove_guardian, instant_pause, propose_pause, approve_pause_proposal,
  execute_pause_proposal, lift_pause,
}
use chain_logistics.CircuitBreaker.Requests.{Request, init, pause, propose, approve, step, run}
use chain_logistics.CircuitBreaker.Votes.{BreakerInv, run-BreakerInv, empty-BreakerInv}
use chain_logistics.CircuitBreaker.Execution.{ExecutedPause, execute_pause_proposal_sound}

abbrev moment : ℕ → Ctx
moment t = record { timestamp = t; current_contract_address = 9; authorized = λ _. true }

abbrev requests : List (Ctx × Request)
requests =
    (moment 100, init 5 (1 ∷ 2 ∷ 3 ∷ []))
    ∷ (moment 200, propose 1 full maintenance "plan" 60 2 1000)
    ∷ (moment 300, approve 2 1)
    ∷ []

abbrev voted : State
voted = run requests empty

voted-BreakerInv : BreakerInv voted
voted-BreakerInv = run-BreakerInv requests empty empty-BreakerInv

runs :
    ((execute_pause_proposal (moment 400) 3 1 90 voted).0 ≡ ok 1)
    × ((execute_pause_proposal (moment 1200) 3 1 90 voted).0 ≡ err Error.approval_expired)
    × ((instant_pause (moment 400) 3 partial security_breach "now" 50 voted).0 ≡ ok 1)
    × ((remove_guardian (moment 400) 5 2 voted).0 ≡ ok tt)
unfolding run step initialize has_duplicate propose_pause approve_pause_proposal
    execute_pause_proposal instant_pause remove_guardian find_index remove_at
runs = (refl, refl, refl, refl)

execute_pause_proposal_sound_example : ExecutedPause (moment 400) 3 1 90 voted
execute_pause_proposal_sound_example =
    execute_pause_proposal_sound (moment 400) 3 1 90 voted voted-BreakerInv runs.0

abbrev paused : State
paused = step (moment 400) (pause 3 emergency security_breach "now" 50) voted

abbrev pause_record : PauseRecord
pause_record = record {
  record_id = 1;
  activated_by = 3;
  level = emergency;
  reason = security_breach;
  description = "now";
  activated_at = 400;
  expires_at = 450;
  lifted_by = [];
  lifted_at = 0;
}

lifting :
    ((lift_pause (moment 410) 5 paused).0 ≡ ok 1)
    × (paused.records (load_state paused).current_record_id ≡ some pause_record)
    × (1 ≡ (load_state paused).current_record_id)
unfolding run step initialize has_duplicate propose_pause approve_pause_proposal instant_pause
    lift_pause
lifting = (refl, refl, refl)
