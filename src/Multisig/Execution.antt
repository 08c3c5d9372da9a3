-- ===== src/Multisig/Execution.antt =====
-- When multisig.rs executes a proposal, and that executed and rejected proposals stay closed.
use chain_logistics.Base.{
  ℕ, ◌+◌, ◌≤◌, ◌≡◌, ap, ◌∙◌, ◌⊎◌, inl, inr, true, none, some, List, [], ◌∷◌, arith, length,
  contains, Distinct, IsSubset, Option-cases, ◌≢◌, length-le_of_IsSubset,
}
use chain_logistics.Host.Call.{Address, Ctx, ok, Storage, unwrap_or}
use chain_logistics.Multisig.State.{
  MultiSigConfig, active, approved, executed, rejected, Proposal, State, get_next_proposal_id,
}
use chain_logistics.Multisig.Handlers.{
  threshold_for, Callee, reject_proposal, submit_proposal, approve_proposal, execute_proposal,
}
use chain_logistics.Multisig.Requests.{Request, init, reject, submit, approve, execute, step, run}
use chain_logistics.Multisig.Invariant.{
  IsProposal, AllProposals, MultisigInv, MayVote, with_approval, with_rejection,
}
use chain_logistics.Multisig.Writes.{
  Writes, approve-Writes, reject-Writes, execute-Writes, init_cases,
}
use chain_logistics.Multisig.Safety.{step-MultisigInv}

-- What a successful execution tells of the proposal and of the moment.
pub record Executes (c : Ctx) (executor : Address) (cfg : MultiSigConfig) (p : Proposal)
    : Type 0 where
  pub by_signer : contains cfg.signers executor ≡ true
  pub authorized : c.authorized executor ≡ true
  pub was_approved : p.status ≡ approved
  pub reached : threshold_for cfg p.kind ≤ length p.approvals
  pub two : 2 ≤ length p.approvals
  pub distinct : Distinct p.approvals
  pub by_signers : IsSubset p.approvals cfg.signers
  pub unlocked : p.approved_at + unwrap_or (cfg.time_locks p.kind) 0 ≤ c.timestamp

-- The call executed the stored proposal: it called the proposal's target once, with the proposal's
-- kind and arguments, and marked the proposal.
abbrev pub ExecutedInTime : Callee → Ctx → Address → ℕ → State → Type 0
ExecutedInTime f c a i s =
    let s' = (execute_proposal f c a i s).1 in
    (cfg : MultiSigConfig) × (p : Proposal) × (s.config ≡ some cfg)
    × (s.proposals i ≡ some p)
    × Executes c a cfg p
    × (s'.proposals i ≡ some (record p { status = executed }))
    × (s'.invocations
        ≡ record { target = p.target; fn_name = p.kind; args = p.args } ∷ s.invocations)

execute_ok :
    (f : Callee) (c : Ctx) (a : Address) (i : ℕ) (s : State) (cfg : MultiSigConfig) (p : Proposal)
    → s.config ≡ some cfg
    → s.proposals i ≡ some p
    → IsProposal cfg (get_next_proposal_id s) i p
    → (execute_proposal f c a i s).0 ≡ ok tt
    → let s' = (execute_proposal f c a i s).1 in
      Executes c a cfg p
      × (s'.proposals i ≡ some (record p { status = executed }))
      × (s'.invocations
          ≡ record { target = p.target; fn_name = p.kind; args = p.args } ∷ s.invocations)
unfolding execute_proposal
execute_ok f c a i s cfg p e m v h = ground arith

execute_fails :
    (f : Callee) (c : Ctx) (a : Address) (i : ℕ) (s : State)
    → (s.config ≡ none) ⊎ (s.proposals i ≡ none)
    → (execute_proposal f c a i s).0 ≢ ok tt
unfolding execute_proposal
execute_fails f c a i s e h = ground arith

-- In a state that satisfies the invariant, if `execute_proposal` succeeds, then the caller is a signer
-- who authorised the call; the proposal was approved by as many distinct signers as its kind needs,
-- and by two at least; its time lock is over; the contract called the proposal's target exactly
-- once, by its kind and with its arguments; and the proposal is now marked as executed.
pub execute_proposal_sound :
    (f : Callee) (c : Ctx) (a : Address) (i : ℕ) (s : State)
    → MultisigInv s
    → (execute_proposal f c a i s).0 ≡ ok tt
    → ExecutedInTime f c a i s
execute_proposal_sound f c a i s (inl (unset, _)) h = absurd (execute_fails f c a i s (inl unset) h)
execute_proposal_sound f c a i s (inr (cfg, e, v, all)) h = elim (Option-cases (s.proposals i)) [
  | inl m ↦ absurd (execute_fails f c a i s (inr m) h)
  | inr (p, m) ↦
      let (x, stored, called) = execute_ok f c a i s cfg p e m (all i p m) h in
      (cfg, p, e, m, x, stored, called)
]

-- With a single signer no proposal is ever executed, though `init_multisig` accepts one signer and
-- the threshold 1: the proposer's approval is recorded and never tested against the threshold.
pub single_signer_never_executes :
    (f : Callee) (c : Ctx) (a : Address) (i : ℕ) (s : State) {cfg : MultiSigConfig}
    → MultisigInv s
    → s.config ≡ some cfg
    → length cfg.signers ≡ 1
    → (execute_proposal f c a i s).0 ≢ ok tt
single_signer_never_executes f c a i s {cfg} v e one h =
    let (cfg', p, e', _, x, _, _) = execute_proposal_sound f c a i s v h in
    let same : cfg' ≡ cfg = cc in
    omega (
      arith,
      length-le_of_IsSubset p.approvals cfg'.signers x.distinct x.by_signers,
      x.two,
      ap (λ (g : MultiSigConfig). length g.signers) same,
    )

-- A proposal that no request can change any more.
abbrev pub IsClosed : Proposal → Type 0
IsClosed p = (p.status ≡ executed) ⊎ (p.status ≡ rejected)

Writes-IsClosed :
    (G : Proposal → Type 0) (change : Proposal → Proposal) (i j : ℕ) (cfg : MultiSigConfig)
    (s s' : State) (p : Proposal)
    → AllProposals cfg s
    → ((q : Proposal) → G q → (q.status ≡ active) ⊎ (q.status ≡ approved))
    → Writes G change i s s'
    → s.proposals j ≡ some p
    → IsClosed p
    → s'.proposals j ≡ some p
Writes-IsClosed G change i j cfg s s' p h live (_, _, inl same) m t =
    ap (λ (g : Storage Proposal). g j) same ∙ m
Writes-IsClosed G change i j cfg s s' p h live (_, _, inr (q, n, g, e)) m t =
    ap (λ (g : Storage Proposal). g j) e ∙ ground (arith, h i q n, live q g)

step-IsClosed :
    (f : Callee) (c : Ctx) (r : Request) (s : State) (cfg : MultiSigConfig) (j : ℕ) (p : Proposal)
    → s.config ≡ some cfg
    → AllProposals cfg s
    → s.proposals j ≡ some p
    → IsClosed p
    → (step f c r s).proposals j ≡ some p
unfolding step
step-IsClosed f c (init signers n ts ls) s cfg j p e h m t = elim (init_cases c signers n ts ls s) [
  | inl same ↦ rw same m
  | inr (unset, _, _, _) ↦ absurd (cc)
]
step-IsClosed f c (submit a target kind args) s cfg j p e h m t =
    unfold submit_proposal in ground (arith, h j p m)
step-IsClosed f c (approve a i) s cfg j p e h m t =
    Writes-IsClosed (MayVote cfg a) (with_approval cfg c a) i j cfg s (approve_proposal c a i s).1 p
      h (λ q g. inl g.open_still) (approve-Writes c a i s cfg e) m t
step-IsClosed f c (reject a i) s cfg j p e h m t =
    Writes-IsClosed (MayVote cfg a) (with_rejection cfg a) i j cfg s (reject_proposal c a i s).1 p h
      (λ q g. inl g.open_still) (reject-Writes c a i s cfg e) m t
step-IsClosed f c (execute a i) s cfg j p e h m t =
    Writes-IsClosed (λ p. p.status ≡ approved) (λ p. record p { status = executed }) i j cfg s
      (execute_proposal f c a i s).1 p h (λ q g. inr g) (execute-Writes f c a i s cfg e) m t

step-IsClosed_of_Inv :
    (f : Callee) (c : Ctx) (r : Request) (s : State) (j : ℕ) (p : Proposal)
    → MultisigInv s
    → s.proposals j ≡ some p
    → IsClosed p
    → (step f c r s).proposals j ≡ some p
step-IsClosed_of_Inv f c r s j p (inl (_, unset)) m t = absurd (cc (unset j))
step-IsClosed_of_Inv f c r s j p (inr (cfg, e, _, h)) m t = step-IsClosed f c r s cfg j p e h m t

-- Whatever is requested later, an executed or a rejected proposal stays exactly as it is.
pub run-IsClosed :
    (f : Callee) (rs : List (Ctx × Request)) (s : State) (j : ℕ) (p : Proposal)
    → MultisigInv s
    → s.proposals j ≡ some p
    → IsClosed p
    → (run f rs s).proposals j ≡ some p
unfolding run
run-IsClosed f [] s j p v m t = m
run-IsClosed f ((c, r) ∷ rs) s j p v m t =
    run-IsClosed f rs (step f c r s) j p (step-MultisigInv f c r s v)
      (step-IsClosed_of_Inv f c r s j p v m t) t
