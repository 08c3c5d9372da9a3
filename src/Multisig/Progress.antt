-- ===== src/Multisig/Progress.antt =====
-- Approved proposals of multisig.rs that nothing stands against are executed.
use chain_logistics.Base.{ℕ, ◌+◌, ◌≤◌, ◌≡◌, true, false, some, arith, contains, ◌∷◌}
use chain_logistics.Host.Call.{Address, Ctx, ok, unwrap_or}
use chain_logistics.Multisig.State.{
  MultiSigConfig, approved, executed, Proposal, MultisigEvent, Invocation, State,
}
use chain_logistics.Multisig.Handlers.{Callee, kind_event, execute_proposal}

-- An approved proposal of a known kind is executed on request: after its time lock, an authorised
-- signer's call succeeds if the target returns and no execution is under way; the proposal is then
-- marked as executed, the target has been called once, and the re-entrancy lock is free again.
pub execute_proposal_succeeds :
    (f : Callee) (c : Ctx) (a : Address) (i : ℕ) (s : State) (cfg : MultiSigConfig) (p : Proposal)
    {e : MultisigEvent}
    → ((x : Invocation) → f x ≡ true)
    → s.config ≡ some cfg
    → contains cfg.signers a ≡ true
    → c.authorized a ≡ true
    → s.proposals i ≡ some p
    → p.id ≡ i
    → p.status ≡ approved
    → p.approved_at + unwrap_or (cfg.time_locks p.kind) 0 ≤ c.timestamp
    → c.timestamp ≤ 18446744073709551615
    → kind_event p a ≡ some e
    → s.locks "multisig_exec" ≡ false
    → let r = execute_proposal f c a i s in
      (r.0 ≡ ok tt)
      × (r.1.proposals i ≡ some (record p { status = executed }))
      × (r.1.invocations
          ≡ record { target = p.target; fn_name = p.kind; args = p.args } ∷ s.invocations)
      × (r.1.locks "multisig_exec" ≡ false)
unfolding execute_proposal
execute_proposal_succeeds f c a i s cfg p returns e m u st n q t fits k l =
    ground (arith, returns (record { target = p.target; fn_name = p.kind; args = p.args }))
