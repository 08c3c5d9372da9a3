-- ===== src/CircuitBreaker/Execution.antt =====
-- When circuit_breaker.rs executes a proposed pause, and that it does so once.
use chain_logistics.Base.{
  ℕ, ◌≡◌, ◌≢◌, refl, ap, ◌∙◌, inl, inr, true, false, none, some, List, [], ◌∷◌, arith, contains,
  Distinct, Option-cases,
}
use chain_logistics.Host.Call.{Address, Ctx, ok, Storage}
use chain_logistics.CircuitBreaker.State.{PauseApproval, State, get_guardians, load_state}
use chain_logistics.CircuitBreaker.Handlers.{
  initialize, add_guardian, remove_guardian, instant_pause, propose_pause, approve_pause_proposal,
  execute_pause_proposal,
}
use chain_logistics.CircuitBreaker.Queries.{get_state}
use chain_logistics.CircuitBreaker.Requests.{
  Request, init, add, remove, pause, propose, approve, execute, lift, query, step, run,
}
use chain_logistics.CircuitBreaker.Votes.{
  IsApproval, BreakerInv, step-BreakerInv, MayVote, with_vote, MayExecute, Writes, approve-Writes,
  execute-Writes, lift_pending, last_approval,
}
use chain_logistics.CircuitBreaker.Blocking.{ends}

-- The call executed the stored proposal: by a guardian, in the proposal's window, with its votes, and
-- paused the contract at the proposed level for the duration that the executor asked for.
abbrev pub ExecutedPause : Ctx → Address → ℕ → ℕ → State → Type 0
ExecutedPause c a i secs s =
    let s' = (execute_pause_proposal c a i secs s).1 in
    let b = load_state s' in
    (p : PauseApproval) × (s.pending i ≡ some p)
    × (contains (get_guardians s) a ≡ true)
    × (c.authorized a ≡ true)
    × Distinct p.approvals
    × MayExecute c p
    × (s'.pending i ≡ some (record p { executed = true }))
    × (b.is_paused ≡ true)
    × (b.level ≡ p.proposed_level)
    × (b.expires_at ≡ ends c.timestamp secs)

execute_ok :
    (c : Ctx) (a : Address) (i secs : ℕ) (s : State) (p : PauseApproval) {id : ℕ}
    → s.pending i ≡ some p
    → IsApproval (last_approval s) i p
    → (execute_pause_proposal c a i secs s).0 ≡ ok id
    → let s' = (execute_pause_proposal c a i secs s).1 in
      let b = load_state s' in
      (contains (get_guardians s) a ≡ true)
      × (c.authorized a ≡ true)
      × MayExecute c p
      × (s'.pending i ≡ some (record p { executed = true }))
      × (b.is_paused ≡ true)
      × (b.level ≡ p.proposed_level)
      × (b.expires_at ≡ ends c.timestamp secs)
unfolding execute_pause_proposal
execute_ok c a i secs s p m v h = ground arith

execute_missing :
    (c : Ctx) (a : Address) (i secs : ℕ) (s : State) {id : ℕ}
    → s.pending i ≡ none
    → (execute_pause_proposal c a i secs s).0 ≢ ok id
unfolding execute_pause_proposal
execute_missing c a i secs s m h = ground arith

-- In a state that satisfies the invariant, if `execute_pause_proposal` succeeds, then the executor is
-- a guardian who authorised the call; the proposal was not executed before, its window is open, and
-- as many distinct addresses as it requires had voted for it; it is now marked as executed; and the
-- contract is paused at the proposed level, for the duration that the executor gave.
pub execute_pause_proposal_sound :
    (c : Ctx) (a : Address) (i secs : ℕ) (s : State) {id : ℕ}
    → BreakerInv s
    → (execute_pause_proposal c a i secs s).0 ≡ ok id
    → ExecutedPause c a i secs s
execute_pause_proposal_sound c a i secs s (_, _, all) h = elim (Option-cases (s.pending i)) [
  | inl m ↦ absurd (execute_missing c a i secs s m h)
  | inr (p, m) ↦
      let (g, u, x, stored, paused, level, until) = execute_ok c a i secs s p m (all i p m) h in
      (p, m, g, u, (all i p m).distinct, x, stored, paused, level, until)
]

Writes-executed :
    (G : PauseApproval → Type 0) (change : PauseApproval → PauseApproval) (i j : ℕ) (s s' : State)
    (p : PauseApproval)
    → BreakerInv s
    → ((q : PauseApproval) → G q → q.executed ≡ false)
    → Writes G change i s s'
    → s.pending j ≡ some p
    → p.executed ≡ true
    → s'.pending j ≡ some p
Writes-executed G change i j s s' p v live (_, inl same) m t =
    ap (λ (g : Storage PauseApproval). g j) same ∙ m
Writes-executed G change i j s s' p (_, _, all) live (_, inr (q, n, g, e)) m t =
    ap (λ (g : Storage PauseApproval). g j) e ∙ ground (arith, all i q n, live q g)

step-executed :
    (c : Ctx) (r : Request) (s : State) (j : ℕ) (p : PauseApproval)
    → BreakerInv s
    → s.pending j ≡ some p
    → p.executed ≡ true
    → (step c r s).pending j ≡ some p
unfolding step
step-executed c (init a gs) s j p v m t = unfold initialize in ground arith
step-executed c (add a g) s j p v m t = unfold add_guardian in ground arith
step-executed c (remove a g) s j p v m t = unfold remove_guardian in ground arith
step-executed c (pause a l r d n) s j p v m t = unfold instant_pause in ground arith
step-executed c (propose a l r d n k w) s j p (_, _, all) m t =
    unfold propose_pause in ground (arith, all j p m)
step-executed c (approve a i) s j p v m t =
    Writes-executed (MayVote a) (with_vote a) i j s (approve_pause_proposal c a i s).1 p v
      (λ q g. g.open_still) (approve-Writes c a i s) m t
step-executed c (execute a i n) s j p v m t =
    Writes-executed (MayExecute c) (λ p. record p { executed = true }) i j s
      (execute_pause_proposal c a i n s).1 p v (λ q g. g.first_time) (execute-Writes c a i n s) m t
step-executed c (lift a) s j p v m t =
    ap (λ (g : Storage PauseApproval). g j) (lift_pending c a s).0 ∙ m
step-executed c query s j p v m t = unfold get_state in ground arith

run-executed :
    (rs : List (Ctx × Request)) (s : State) (j : ℕ) (p : PauseApproval)
    → BreakerInv s
    → s.pending j ≡ some p
    → p.executed ≡ true
    → (run rs s).pending j ≡ some p
unfolding run
run-executed [] s j p v m t = m
run-executed ((c, r) ∷ rs) s j p v m t =
    run-executed rs (step c r s) j p (step-BreakerInv c r s v) (step-executed c r s j p v m t) t

execute_again :
    (c : Ctx) (a : Address) (i n : ℕ) (s : State) (p : PauseApproval) {id : ℕ}
    → s.pending i ≡ some p
    → p.executed ≡ true
    → (execute_pause_proposal c a i n s).0 ≢ ok id
unfolding execute_pause_proposal
execute_again c a i n s p m t h = ground arith

execute-BreakerInv :
    (c : Ctx) (a : Address) (i n : ℕ) (s : State)
    → BreakerInv s
    → BreakerInv (execute_pause_proposal c a i n s).1
execute-BreakerInv c a i n s v = unfold step in step-BreakerInv c (execute a i n) s v

-- A proposal pauses the contract once: after its execution no later one succeeds, whatever is called
-- in between.
pub execute_pause_once :
    (c d : Ctx) (a b : Address) (i n m : ℕ) (rs : List (Ctx × Request)) (s : State) {id id' : ℕ}
    → BreakerInv s
    → (execute_pause_proposal c a i n s).0 ≡ ok id
    → (execute_pause_proposal d b i m (run rs (execute_pause_proposal c a i n s).1)).0 ≢ ok id'
execute_pause_once c d a b i n m rs s v h =
    let (p, _, _, _, _, _, stored, _, _, _) = execute_pause_proposal_sound c a i n s v h in
    let s' : State = (execute_pause_proposal c a i n s).1 in
    let p' : PauseApproval = record p { executed = true } in
    execute_again d b i m (run rs s') p'
      (run-executed rs s' i p' (execute-BreakerInv c a i n s v) stored refl) refl
