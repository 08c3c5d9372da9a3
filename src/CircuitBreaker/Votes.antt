-- ===== src/CircuitBreaker/Votes.antt =====
-- The votes of circuit_breaker.rs: its proposals and the invariant over every call.
use chain_logistics.Base.{
  ℕ, ◌≤◌, ◌≡◌, sym, ap, ◌∙◌, ◌⊎◌, inl, inr, true, false, some, String, List, [], ◌∷◌, arith, length,
  contains, Distinct, push_back, push_back-Distinct, length-push_back, Option-cases,
}
use chain_logistics.Host.Call.{Address, Ctx, Storage, put, unwrap_or}
use chain_logistics.CircuitBreaker.State.{
  PauseLevel, PauseReason, PauseApproval, State, empty, get_guardians,
}
use chain_logistics.CircuitBreaker.Handlers.{
  max_guardians, is_expired, initialize, add_guardian, remove_guardian, instant_pause,
  propose_pause, approve_pause_proposal, execute_pause_proposal, lift_pause,
}
use chain_logistics.CircuitBreaker.Queries.{get_state}
use chain_logistics.CircuitBreaker.Requests.{
  Request, init, add, remove, pause, propose, approve, execute, lift, query, step, run,
}
use chain_logistics.CircuitBreaker.Guardians.{guardians-step}

-- What holds of the proposal stored under `i`.
pub record IsApproval (last i : ℕ) (p : PauseApproval) : Type 0 where
  pub keyed : p.approval_id ≡ i
  pub numbered : p.approval_id ≤ last
  pub distinct : Distinct p.approvals
  pub some_approval : 1 ≤ length p.approvals
  pub required_pos : 1 ≤ p.required_approvals
  pub required_small : p.required_approvals ≤ max_guardians
  pub executed_reached : p.executed ≡ true → p.required_approvals ≤ length p.approvals

abbrev pub last_approval : State → ℕ
last_approval s = unwrap_or s.next_approval 0

abbrev pub AllApprovals : State → Type 0
AllApprovals s =
    (i : ℕ) (p : PauseApproval) → s.pending i ≡ some p → IsApproval (last_approval s) i p

abbrev pub BreakerInv : State → Type 0
BreakerInv s =
    Distinct (get_guardians s) × (length (get_guardians s) ≤ max_guardians) × AllApprovals s

-- What a vote or an execution does to the proposals: nothing, or one of them is changed.
abbrev pub Writes :
    (PauseApproval → Type 0) → (PauseApproval → PauseApproval) → ℕ → State → State → Type 0
Writes G change i s s' =
    (s'.next_approval ≡ s.next_approval)
    × ((s'.pending ≡ s.pending)
        ⊎ ((p : PauseApproval) × (s.pending i ≡ some p)
            × G p
            × (s'.pending ≡ put p.approval_id (change p) s.pending)))

Writes-AllApprovals :
    (G : PauseApproval → Type 0) (change : PauseApproval → PauseApproval) (i : ℕ) (s s' : State)
    → AllApprovals s
    → ((p : PauseApproval)
        → IsApproval (last_approval s) i p
        → G p
        → IsApproval (last_approval s) i (change p))
    → Writes G change i s s'
    → AllApprovals s'
Writes-AllApprovals G change i s s' h good (n, inl same) j q m =
    rw n (h j q (sym (ap (λ (g : Storage PauseApproval). g j) same) ∙ m))
Writes-AllApprovals G change i s s' h good (n, inr (p, e, g, w)) j q m = rw n (
    ground (
      arith,
      h j q,
      h i p e,
      good p (h i p e) g,
      sym (ap (λ (g : Storage PauseApproval). g j) w) ∙ m,
    ))

propose-AllApprovals :
    (c : Ctx) (a : Address) (l : PauseLevel) (r : PauseReason) (d : String) (t n w : ℕ) (s : State)
    → length (get_guardians s) ≤ max_guardians
    → AllApprovals s
    → AllApprovals (propose_pause c a l r d t n w s).1
unfolding propose_pause contains
propose-AllApprovals c a l r d t n w s g h j q = ground (arith, h j q)

abbrev pub with_vote : Address → PauseApproval → PauseApproval
with_vote a p = record p { approvals = push_back p.approvals a }

pub record MayVote (a : Address) (p : PauseApproval) : Type 0 where
  pub open_still : p.executed ≡ false
  pub not_voted : contains p.approvals a ≡ false

pub approve-Writes :
    (c : Ctx) (a : Address) (i : ℕ) (s : State)
    → Writes (MayVote a) (with_vote a) i s (approve_pause_proposal c a i s).1
unfolding approve_pause_proposal
approve-Writes c a i s = elim (Option-cases (s.pending i)) [
  | inl m ↦ ground arith
  | inr (p, m) ↦ ground arith
]

with_vote-IsApproval :
    (a : Address) (last i : ℕ) (p : PauseApproval)
    → IsApproval last i p
    → MayVote a p
    → IsApproval last i (with_vote a p)
with_vote-IsApproval a last i p v g =
    ground (arith, push_back-Distinct p.approvals a, length-push_back p.approvals a)

-- The guards that the execution of a proposal has passed.
pub record MayExecute (c : Ctx) (p : PauseApproval) : Type 0 where
  pub first_time : p.executed ≡ false
  pub unexpired : is_expired c p.expires_at ≡ false
  pub reached : p.required_approvals ≤ length p.approvals

pub execute-Writes :
    (c : Ctx) (a : Address) (i t : ℕ) (s : State)
    → Writes
        (MayExecute c)
        (λ p. record p { executed = true })
        i
        s
        (execute_pause_proposal c a i t s).1
unfolding execute_pause_proposal
execute-Writes c a i t s = elim (Option-cases (s.pending i)) [
  | inl m ↦ ground arith
  | inr (p, m) ↦ ground arith
]

same-AllApprovals :
    (s s' : State)
    → s'.pending ≡ s.pending
    → s'.next_approval ≡ s.next_approval
    → AllApprovals s
    → AllApprovals s'
same-AllApprovals s s' e n h =
    Writes-AllApprovals (λ _. Unit) (λ p. p) 0 s s' h (λ p v _. v) (n, inl e)

pub lift_pending :
    (c : Ctx) (a : Address) (s : State)
    → ((lift_pause c a s).1.pending ≡ s.pending)
      × ((lift_pause c a s).1.next_approval ≡ s.next_approval)
unfolding lift_pause
lift_pending c a s = ground arith

approvals-step : (c : Ctx) (r : Request) (s : State) → BreakerInv s → AllApprovals (step c r s)
unfolding step
approvals-step c (init a gs) s (_, _, h) =
    same-AllApprovals s (initialize c a gs s).1 (unfold initialize in ground arith)
      (unfold initialize in ground arith) h
approvals-step c (add a g) s (_, _, h) =
    same-AllApprovals s (add_guardian c a g s).1 (unfold add_guardian in ground arith)
      (unfold add_guardian in ground arith) h
approvals-step c (remove a g) s (_, _, h) =
    same-AllApprovals s (remove_guardian c a g s).1 (unfold remove_guardian in ground arith)
      (unfold remove_guardian in ground arith) h
approvals-step c (pause a l r d t) s (_, _, h) =
    same-AllApprovals s (instant_pause c a l r d t s).1 (unfold instant_pause in ground arith)
      (unfold instant_pause in ground arith) h
approvals-step c (propose a l r d t n w) s (_, g, h) = propose-AllApprovals c a l r d t n w s g h
approvals-step c (approve a i) s (_, _, h) =
    Writes-AllApprovals (MayVote a) (with_vote a) i s (approve_pause_proposal c a i s).1 h
      (with_vote-IsApproval a (last_approval s) i) (approve-Writes c a i s)
approvals-step c (execute a i t) s (_, _, h) =
    Writes-AllApprovals (MayExecute c) (λ p. record p { executed = true }) i s
      (execute_pause_proposal c a i t s).1 h (λ p v g. ground arith) (execute-Writes c a i t s)
approvals-step c (lift a) s (_, _, h) =
    same-AllApprovals s (lift_pause c a s).1 (lift_pending c a s).0 (lift_pending c a s).1 h
approvals-step c query s (_, _, h) =
    same-AllApprovals s (get_state c s).1 (unfold get_state in ground arith)
      (unfold get_state in ground arith) h

-- Every call, successful or not, keeps the invariant: there are at most 20 guardians, none twice; and
-- every proposal lies under its own number, no guardian has voted twice on it, it needs between 1
-- and 20 votes, and an executed one has them.
pub step-BreakerInv : (c : Ctx) (r : Request) (s : State) → BreakerInv s → BreakerInv (step c r s)
step-BreakerInv c r s (d, n, h) =
    let (d', n') = guardians-step c r s d n in (d', n', approvals-step c r s (d, n, h))

pub run-BreakerInv : (rs : List (Ctx × Request)) (s : State) → BreakerInv s → BreakerInv (run rs s)
unfolding run
run-BreakerInv [] s h = h
run-BreakerInv ((c, r) ∷ rs) s h = run-BreakerInv rs (step c r s) (step-BreakerInv c r s h)

pub empty-BreakerInv : BreakerInv empty
empty-BreakerInv = (tt, omega arith, λ i p e. absurd (cc))
