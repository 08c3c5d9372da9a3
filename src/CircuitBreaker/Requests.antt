-- ===== src/CircuitBreaker/Requests.antt =====
-- Sequences of invocations of circuit_breaker.rs's entry points, by any callers at any times.
use chain_logistics.Base.{ℕ, String, List, [], ◌∷◌}
use chain_logistics.Host.Call.{Address, Ctx}
use chain_logistics.CircuitBreaker.State.{PauseLevel, PauseReason, State}
use chain_logistics.CircuitBreaker.Handlers.{
  initialize, add_guardian, remove_guardian, instant_pause, propose_pause, approve_pause_proposal,
  execute_pause_proposal, lift_pause,
}
use chain_logistics.CircuitBreaker.Queries.{get_state}

pub data Request : Type 0 where
  init : Address → List Address → Request
  add : Address → Address → Request
  remove : Address → Address → Request
  pause : Address → PauseLevel → PauseReason → String → ℕ → Request
  propose : Address → PauseLevel → PauseReason → String → ℕ → ℕ → ℕ → Request
  approve : Address → ℕ → Request
  execute : Address → ℕ → ℕ → Request
  lift : Address → Request
  query : Request

-- The state that a call leaves, also where it fails.
unfoldable pub step : Ctx → Request → State → State
step c (init a gs) s = (initialize c a gs s).1
step c (add a g) s = (add_guardian c a g s).1
step c (remove a g) s = (remove_guardian c a g s).1
step c (pause a l r d t) s = (instant_pause c a l r d t s).1
step c (propose a l r d t n w) s = (propose_pause c a l r d t n w s).1
step c (approve a i) s = (approve_pause_proposal c a i s).1
step c (execute a i t) s = (execute_pause_proposal c a i t s).1
step c (lift a) s = (lift_pause c a s).1
step c query s = (get_state c s).1

unfoldable pub run : List (Ctx × Request) → State → State
run [] s = s
run ((c, r) ∷ rs) s = run rs (step c r s)
