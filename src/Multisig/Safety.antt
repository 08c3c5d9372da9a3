-- ===== src/Multisig/Safety.antt =====
-- Every request to multisig.rs keeps the invariant, and closed proposals stay closed.
use chain_logistics.Base.{ℕ, ◌≡◌, refl, ap, ◌∙◌, ◌⊎◌, inl, inr, none, some, List, [], ◌∷◌, arith}
use chain_logistics.Host.Call.{Ctx, Storage}
use chain_logistics.Multisig.State.{
  MultiSigConfig, approved, executed, Proposal, State, empty, get_next_proposal_id,
}
use chain_logistics.Multisig.Handlers.{
  Callee, reject_proposal, submit_proposal, approve_proposal, execute_proposal,
}
use chain_logistics.Multisig.Requests.{Request, init, reject, submit, approve, execute, step, run}
use chain_logistics.Multisig.Invariant.{
  IsConfig, IsProposal, AllProposals, MultisigInv, MayVote, with_approval, with_rejection,
  put-AllProposals, same-AllProposals, submit-AllProposals, with_approval-IsProposal,
  with_rejection-IsProposal,
}
use chain_logistics.Multisig.Writes.{
  Writes, approve-Writes, reject-Writes, execute-Writes, init_cases, new_config,
}

Writes-AllProposals :
    (G : Proposal → Type 0) (change : Proposal → Proposal) (i : ℕ) (cfg : MultiSigConfig)
    (s s' : State)
    → AllProposals cfg s
    → ((p : Proposal)
        → IsProposal cfg (get_next_proposal_id s) i p
        → G p
        → (change p).id ≡ p.id × IsProposal cfg (get_next_proposal_id s) i (change p))
    → Writes G change i s s'
    → AllProposals cfg s'
Writes-AllProposals G change i cfg s s' h good (_, n, inl same) =
    same-AllProposals cfg s s' h n same
Writes-AllProposals G change i cfg s s' h good (_, n, inr (p, m, g, e)) =
    let v = h i p m in put-AllProposals cfg i (change p) s s' h n (rw (← v.keyed) e) (good p v g).1

executed-IsProposal :
    (cfg : MultiSigConfig) (next i : ℕ) (p : Proposal)
    → IsProposal cfg next i p
    → p.status ≡ approved
    → IsProposal cfg next i (record p { status = executed })
executed-IsProposal cfg next i p v g = ground arith

step_configured :
    (f : Callee) (c : Ctx) (r : Request) (s : State) (cfg : MultiSigConfig)
    → s.config ≡ some cfg
    → IsConfig cfg
    → AllProposals cfg s
    → ((step f c r s).config ≡ some cfg) × AllProposals cfg (step f c r s)
unfolding step
step_configured f c (init signers n ts ls) s cfg e v h = elim (init_cases c signers n ts ls s) [
  | inl p ↦ rw p (e, h)
  | inr (unset, _, _, _) ↦ absurd (cc)
]
step_configured f c (submit a target kind args) s cfg e v h =
    (unfold submit_proposal in ground arith, submit-AllProposals c a target kind args s cfg e v h)
step_configured f c (approve a i) s cfg e v h =
    let w = approve-Writes c a i s cfg e in
    (
      w.0 ∙ e,
      Writes-AllProposals (MayVote cfg a) (with_approval cfg c a) i cfg s
          (approve_proposal c a i s).1 h
          (λ p u g. (refl, with_approval-IsProposal cfg c a _ i p u g)) w,
    )
step_configured f c (reject a i) s cfg e v h =
    let w = reject-Writes c a i s cfg e in
    (
      w.0 ∙ e,
      Writes-AllProposals (MayVote cfg a) (with_rejection cfg a) i cfg s (reject_proposal c a i s).1
          h (λ p u g. (refl, with_rejection-IsProposal cfg a _ i p u g)) w,
    )
step_configured f c (execute a i) s cfg e v h =
    let w = execute-Writes f c a i s cfg e in
    (
      w.0 ∙ e,
      Writes-AllProposals (λ p. p.status ≡ approved) (λ p. record p { status = executed }) i cfg s
          (execute_proposal f c a i s).1 h (λ p u g. (refl, executed-IsProposal cfg _ i p u g)) w,
    )

step_unconfigured :
    (f : Callee) (c : Ctx) (r : Request) (s : State)
    → s.config ≡ none
    → (step f c r s ≡ s)
      ⊎ ((cfg : MultiSigConfig) × IsConfig cfg
          × ((step f c r s).config ≡ some cfg)
          × ((step f c r s).proposals ≡ s.proposals))
unfolding step submit_proposal approve_proposal reject_proposal execute_proposal
step_unconfigured f c (init signers n ts ls) s e = elim (init_cases c signers n ts ls s) [
  | inl p ↦ inl p
  | inr (_, v, p, q) ↦ inr (new_config signers n ts ls, v, p, q)
]
step_unconfigured f c (submit a target kind args) s e = inl (ground arith)
step_unconfigured f c (approve a i) s e = inl (ground arith)
step_unconfigured f c (reject a i) s e = inl (ground arith)
step_unconfigured f c (execute a i) s e = inl (ground arith)

-- Every request, successful or not, keeps the invariant: nothing is stored, or there are at most ten
-- distinct signers, and every stored proposal lies under its own number, below the next one; no
-- signer has voted twice on it, for both sides neither; an approved or executed one has its
-- threshold of approvals, and two at least; a rejected one has its number of rejections.
pub step-MultisigInv :
    (f : Callee) (c : Ctx) (r : Request) (s : State) → MultisigInv s → MultisigInv (step f c r s)
step-MultisigInv f c r s (inl (unset, none_stored)) = elim (step_unconfigured f c r s unset) [
  | inl p ↦ rw p (inl (unset, none_stored))
  | inr (cfg, v, e, p) ↦
      inr (cfg, e, v, λ i q m. absurd (cc (none_stored i, ap (λ (g : Storage Proposal). g i) p)))
]
step-MultisigInv f c r s (inr (cfg, e, v, h)) =
    let (e', h') = step_configured f c r s cfg e v h in inr (cfg, e', v, h')

pub run-MultisigInv :
    (f : Callee) (rs : List (Ctx × Request)) (s : State) → MultisigInv s → MultisigInv (run f rs s)
unfolding run
run-MultisigInv f [] s h = h
run-MultisigInv f ((c, r) ∷ rs) s h =
    run-MultisigInv f rs (step f c r s) (step-MultisigInv f c r s h)

pub empty-MultisigInv : MultisigInv empty
empty-MultisigInv = inl (refl, λ i. refl)
