-- ===== src/Multisig/Invariant.antt =====
-- The invariant of multisig.rs, and that every entry point keeps it.
use chain_logistics.Base.{
  ℕ, ◌≤◌, ◌<◌, ◌≡◌, refl, sym, ap, ◌∙◌, Bool, leb, ◌==◌, if◌then◌else◌, ◌⊎◌, true, false, none,
  some, List, arith, length, contains, Distinct, IsSubset, IsApart, push_back, ==_iff,
  push_back-Distinct, push_back-IsSubset, push_back-IsApart, IsApart-push, length-push_back,
}
use chain_logistics.Host.Call.{Address, Symbol, Ctx, Storage, put}
use chain_logistics.Multisig.State.{
  MultiSigConfig, Val, active, approved, executed, rejected, expired, Proposal, State,
  get_next_proposal_id,
}
use chain_logistics.Multisig.Handlers.{threshold_for, max_rejections, submit_proposal}

-- What `init_multisig` asks for.
pub record IsConfig (cfg : MultiSigConfig) : Type 0 where
  pub some_signer : 1 ≤ length cfg.signers
  pub threshold_pos : 1 ≤ cfg.threshold
  pub threshold_met : cfg.threshold ≤ length cfg.signers
  pub few_signers : length cfg.signers ≤ 10
  pub distinct : Distinct cfg.signers

-- What holds of the proposal stored under `i`.
pub record IsProposal (cfg : MultiSigConfig) (next i : ℕ) (p : Proposal) : Type 0 where
  pub keyed : p.id ≡ i
  pub numbered : p.id < next
  pub approvals_distinct : Distinct p.approvals
  pub approvals_by_signers : IsSubset p.approvals cfg.signers
  pub some_approval : 1 ≤ length p.approvals
  pub rejections_distinct : Distinct p.rejections
  pub rejections_by_signers : IsSubset p.rejections cfg.signers
  pub one_vote : IsApart p.approvals p.rejections
  pub approved_reached : p.status ≡ approved → threshold_for cfg p.kind ≤ length p.approvals
  pub executed_reached : p.status ≡ executed → threshold_for cfg p.kind ≤ length p.approvals
  pub approved_twice : p.status ≡ approved → 2 ≤ length p.approvals
  pub executed_twice : p.status ≡ executed → 2 ≤ length p.approvals
  pub rejected_reached : p.status ≡ rejected → max_rejections cfg p.kind ≤ length p.rejections
  pub not_expired : p.status ≡ expired → ⊥

abbrev pub AllProposals : MultiSigConfig → State → Type 0
AllProposals cfg s =
    (i : ℕ) (p : Proposal) → s.proposals i ≡ some p → IsProposal cfg (get_next_proposal_id s) i p

-- Before `init_multisig` nothing is stored.
abbrev pub MultisigInv : State → Type 0
MultisigInv s =
    ((s.config ≡ none) × ((i : ℕ) → s.proposals i ≡ none))
    ⊎ ((cfg : MultiSigConfig) × (s.config ≡ some cfg) × IsConfig cfg × AllProposals cfg s)

-- One proposal is written: the others stay.
pub put-AllProposals :
    (cfg : MultiSigConfig) (i : ℕ) (p : Proposal) (s s' : State)
    → AllProposals cfg s
    → s'.next_proposal_id ≡ s.next_proposal_id
    → s'.proposals ≡ put i p s.proposals
    → IsProposal cfg (get_next_proposal_id s) i p
    → AllProposals cfg s'
put-AllProposals cfg i p s s' h n e v j q m =
    let m' : put i p s.proposals j ≡ some q = sym (ap (λ (g : Storage Proposal). g j) e) ∙ m in
    let w : IsProposal cfg (get_next_proposal_id s) j q = put_case (i == j) (==_iff i j).0 m' in
    rw n w
  where
    put_case :
        (b : Bool)
        → (b ≡ true → i ≡ j)
        → (if b then some p else s.proposals j) ≡ some q
        → IsProposal cfg (get_next_proposal_id s) j q
    put_case true same e = ground (arith, same refl)
    put_case false same e = h j q e

pub same-AllProposals :
    (cfg : MultiSigConfig) (s s' : State)
    → AllProposals cfg s
    → s'.next_proposal_id ≡ s.next_proposal_id
    → s'.proposals ≡ s.proposals
    → AllProposals cfg s'
same-AllProposals cfg s s' h n e j q m =
    rw n (h j q (sym (ap (λ (g : Storage Proposal). g j) e) ∙ m))

-- The proposal that an approval leaves.
abbrev pub with_approval : MultiSigConfig → Ctx → Address → Proposal → Proposal
with_approval cfg c a p =
    let approvals' = push_back p.approvals a in
    let reached = leb (threshold_for cfg p.kind) (length approvals') in
    record p {
      approvals = approvals';
      status = if reached then approved else p.status;
      approved_at = if reached then c.timestamp else p.approved_at;
    }

abbrev pub with_rejection : MultiSigConfig → Address → Proposal → Proposal
with_rejection cfg a p =
    let rejections' = push_back p.rejections a in
    record p {
      rejections = rejections';
      status = if leb (max_rejections cfg p.kind) (length rejections') then rejected else p.status;
    }

-- The guards that a vote has passed.
pub record MayVote (cfg : MultiSigConfig) (a : Address) (p : Proposal) : Type 0 where
  pub signs : contains cfg.signers a ≡ true
  pub open_still : p.status ≡ active
  pub not_approved : contains p.approvals a ≡ false
  pub not_rejected : contains p.rejections a ≡ false

pub with_approval-IsProposal :
    (cfg : MultiSigConfig) (c : Ctx) (a : Address) (next i : ℕ) (p : Proposal)
    → IsProposal cfg next i p
    → MayVote cfg a p
    → IsProposal cfg next i (with_approval cfg c a p)
with_approval-IsProposal cfg c a next i p v g = ground (
  arith,
  push_back-Distinct p.approvals a,
  push_back-IsSubset p.approvals a cfg.signers,
  IsApart-push p.approvals a p.rejections,
  length-push_back p.approvals a,
)

pub with_rejection-IsProposal :
    (cfg : MultiSigConfig) (a : Address) (next i : ℕ) (p : Proposal)
    → IsProposal cfg next i p
    → MayVote cfg a p
    → IsProposal cfg next i (with_rejection cfg a p)
with_rejection-IsProposal cfg a next i p v g = ground (
  arith,
  push_back-Distinct p.rejections a,
  push_back-IsSubset p.rejections a cfg.signers,
  push_back-IsApart p.approvals p.rejections a,
  length-push_back p.rejections a,
)

pub submit-AllProposals :
    (c : Ctx) (a target : Address) (kind : Symbol) (args : List Val) (s : State)
    (cfg : MultiSigConfig)
    → s.config ≡ some cfg
    → IsConfig cfg
    → AllProposals cfg s
    → AllProposals cfg (submit_proposal c a target kind args s).1
unfolding submit_proposal contains
submit-AllProposals c a target kind args s cfg e v h i p' = ground (arith, h i p')
