-- ===== src/Multisig/Writes.antt =====
-- What each entry point of multisig.rs writes.
use chain_logistics.Base.{
  ℕ, ◌≡◌, ◌⊎◌, inl, inr, Option, none, some, List, arith, Option-cases, has_duplicate_iff,
}
use chain_logistics.Host.Call.{Address, Symbol, Ctx, require_all_cases, put}
use chain_logistics.Multisig.State.{MultiSigConfig, approved, executed, Proposal, State}
use chain_logistics.Multisig.Handlers.{
  Callee, init_multisig, reject_proposal, approve_proposal, execute_proposal,
}
use chain_logistics.Multisig.Invariant.{IsConfig, MayVote, with_approval, with_rejection}

-- What a call may do to the proposals.
abbrev pub Writes : (Proposal → Type 0) → (Proposal → Proposal) → ℕ → State → State → Type 0
Writes G change i s s' =
    (s'.config ≡ s.config)
    × (s'.next_proposal_id ≡ s.next_proposal_id)
    × ((s'.proposals ≡ s.proposals)
        ⊎ ((p : Proposal) × (s.proposals i ≡ some p)
            × G p
            × (s'.proposals ≡ put p.id (change p) s.proposals)))

pub approve-Writes :
    (c : Ctx) (a : Address) (id : ℕ) (s : State) (cfg : MultiSigConfig)
    → s.config ≡ some cfg
    → Writes (MayVote cfg a) (with_approval cfg c a) id s (approve_proposal c a id s).1
unfolding approve_proposal
approve-Writes c a id s cfg e = elim (Option-cases (s.proposals id)) [
  | inl m ↦ ground arith
  | inr (p, m) ↦ ground arith
]

pub reject-Writes :
    (c : Ctx) (a : Address) (id : ℕ) (s : State) (cfg : MultiSigConfig)
    → s.config ≡ some cfg
    → Writes (MayVote cfg a) (with_rejection cfg a) id s (reject_proposal c a id s).1
unfolding reject_proposal
reject-Writes c a id s cfg e = elim (Option-cases (s.proposals id)) [
  | inl m ↦ ground arith
  | inr (p, m) ↦ ground arith
]

pub execute-Writes :
    (f : Callee) (c : Ctx) (a : Address) (id : ℕ) (s : State) (cfg : MultiSigConfig)
    → s.config ≡ some cfg
    → Writes
        (λ p. p.status ≡ approved)
        (λ p. record p { status = executed })
        id
        s
        (execute_proposal f c a id s).1
unfolding execute_proposal
execute-Writes f c a id s cfg e = elim (Option-cases (s.proposals id)) [
  | inl m ↦ ground arith
  | inr (p, m) ↦ ground arith
]

abbrev pub new_config :
    List Address → ℕ → (Symbol → Option ℕ) → (Symbol → Option ℕ) → MultiSigConfig
new_config signers n ts ls = record {
  signers = signers;
  threshold = n;
  thresholds = ts;
  time_locks = ls;
}

-- `init_multisig` either stores a valid configuration where there was none, or nothing at all.
pub init_cases :
    (c : Ctx) (signers : List Address) (n : ℕ) (ts ls : Symbol → Option ℕ) (s : State)
    → let s' = (init_multisig c signers n ts ls s).1 in
      (s' ≡ s)
      ⊎ ((s.config ≡ none)
          × IsConfig (new_config signers n ts ls)
          × (s'.config ≡ some (new_config signers n ts ls))
          × (s'.proposals ≡ s.proposals))
unfolding init_multisig
init_cases c signers n ts ls s = elim (Option-cases s.config) [
  | inr (old, e) ↦ inl (ground arith)
  | inl e ↦ elim (require_all_cases c signers s) [
    | inl p ↦ ground (arith, has_duplicate_iff signers)
    | inr p ↦ inl (ground arith)
  ]
]
