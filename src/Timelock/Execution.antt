-- ===== src/Timelock/Execution.antt =====
-- When timelock.rs executes an action, and that it does so once.
use chain_logistics.Base.{
  ℕ, ◌+◌, ◌≤◌, ◌≡◌, refl, ◌∙◌, ◌≢◌, ◌⊎◌, inl, inr, true, none, some, List, ◌∷◌, arith, length,
  contains, Distinct, IsSubset, Option-cases,
}
use chain_logistics.Host.Call.{Address, Ctx, ok}
use chain_logistics.Timelock.State.{
  TimelockConfig, TimelockAction, executed, cancelled, pause_main, unpause_main, set_main_multisig,
  configure_oracle_feed, set_oracle_fallback, Val, TimelockOperation, get_next_operation_id, State,
  Invocation,
}
use chain_logistics.Timelock.Actions.{Callee, perform_action}
use chain_logistics.Timelock.Handlers.{
  min_delay_floor, propose_action, approve_action, cancel_action, execute_action,
}
use chain_logistics.Timelock.Requests.{Request, init, propose, approve, cancel, execute, step}
use chain_logistics.Timelock.Invariant.{
  IsConfig, IsOperation, TimelockInv, AllOperations, perform_action_frame, init_cases,
}

-- The contract that an action is about.
abbrev pub target : TimelockConfig → TimelockAction → Address
target cfg pause_main = cfg.main_contract
target cfg unpause_main = cfg.main_contract
target cfg (set_main_multisig _) = cfg.main_contract
target cfg (configure_oracle_feed oracle _) = oracle
target cfg (set_oracle_fallback oracle _ _ _) = oracle
target cfg _ = cfg.upgrade_contract

-- Between two states one call was made, to that contract, in the timelock's own name, and exactly
-- this call was authorised.
abbrev pub Performs : Ctx → TimelockConfig → TimelockAction → State → State → Type 0
Performs c cfg action s s' =
    (i : Invocation) × (rest : List Val) × (i.contract ≡ target cfg action)
    × (i.args ≡ Val.address c.current_contract_address ∷ rest)
    × (s'.invocations ≡ i ∷ s.invocations)
    × (s'.authorizations ≡ i ∷ s.authorizations)

perform_action-Performs :
    (f : Callee) (c : Ctx) (cfg : TimelockConfig) (action : TimelockAction) (s : State)
    → Performs c cfg action s (perform_action f c cfg action s).1
unfolding perform_action
perform_action-Performs f c cfg pause_main s = (_, _, refl, refl, refl, refl)
perform_action-Performs f c cfg _ s = (_, _, refl, refl, refl, refl)

-- What a successful execution tells of the operation and of the moment.
pub record Executes (c : Ctx) (executor : Address) (cfg : TimelockConfig) (op : TimelockOperation)
    : Type 0 where
  pub by_signer : contains cfg.signers executor ≡ true
  pub authorized : c.authorized executor ≡ true
  pub approved : cfg.threshold ≤ length op.approvals
  pub distinct : Distinct op.approvals
  pub by_signers : IsSubset op.approvals cfg.signers
  pub delayed : op.created_at + min_delay_floor ≤ c.timestamp
  pub unexpired : c.timestamp ≤ op.execute_by

execute_ok :
    (f : Callee) (c : Ctx) (a : Address) (id : ℕ) (s : State) (cfg : TimelockConfig)
    (op : TimelockOperation)
    → s.config ≡ some cfg
    → s.operations id ≡ some op
    → IsConfig cfg
    → IsOperation cfg (get_next_operation_id s) id op
    → (execute_action f c a id s).0 ≡ ok tt
    → let s' = (execute_action f c a id s).1 in
      let s'' = (perform_action f c cfg op.action s).1 in
      Executes c a cfg op
      × (s'.operations id ≡ some (record op { status = executed }))
      × (s'.invocations ≡ s''.invocations)
      × (s'.authorizations ≡ s''.authorizations)
unfolding execute_action
execute_ok f c a id s cfg op e m v o h = ground arith

execute_unset :
    (f : Callee) (c : Ctx) (a : Address) (id : ℕ) (s : State)
    → s.config ≡ none
    → (execute_action f c a id s).0 ≢ ok tt
unfolding execute_action
execute_unset f c a id s e h = ground arith

execute_missing :
    (f : Callee) (c : Ctx) (a : Address) (id : ℕ) (s : State)
    → s.operations id ≡ none
    → (execute_action f c a id s).0 ≢ ok tt
unfolding execute_action
execute_missing f c a id s e h = ground arith

-- The call executed the stored operation: by a signer, with enough approvals, in its window, by
-- one call of the contract that the action is about.
abbrev pub ExecutedInWindow : Callee → Ctx → Address → ℕ → State → Type 0
ExecutedInWindow f c a id s =
    (cfg : TimelockConfig) × (op : TimelockOperation) × (s.config ≡ some cfg)
    × (s.operations id ≡ some op)
    × Executes c a cfg op
    × Performs c cfg op.action s (execute_action f c a id s).1
    × ((execute_action f c a id s).1.operations id ≡ some (record op { status = executed }))

-- In a state that satisfies the invariant, if `execute_action` succeeds, then the caller is a signer
-- who authorised the call; at least `threshold` distinct signers had approved the operation; a day
-- at least has passed since its proposal and its window is not over; the call made exactly one
-- cross-contract call, in the timelock's name, of the contract that the action is about, and
-- authorised exactly this call; and the operation is now marked as executed.
pub execute_action_sound :
    (f : Callee) (c : Ctx) (a : Address) (id : ℕ) (s : State)
    → TimelockInv s
    → (execute_action f c a id s).0 ≡ ok tt
    → ExecutedInWindow f c a id s
execute_action_sound f c a id s (inl (unset, _)) h = absurd (execute_unset f c a id s unset h)
execute_action_sound f c a id s (inr (cfg, e, v, all)) h = elim (Option-cases (s.operations id)) [
  | inl m ↦ absurd (execute_missing f c a id s m h)
  | inr (op, m) ↦
      (let (x, stored, i_eq, a_eq) = execute_ok f c a id s cfg op e m v (all id op m) h in
        let (i, rest, to, own, called, allowed) = perform_action-Performs f c cfg op.action s in
        (cfg, op, e, m, x, (i, rest, to, own, i_eq ∙ called, a_eq ∙ allowed), stored))
]

-- An operation that no request can change any more.
abbrev pub IsFinal : TimelockOperation → Type 0
IsFinal op = (op.status ≡ executed) ⊎ (op.status ≡ cancelled)

pub step-IsFinal :
    (f : Callee) (c : Ctx) (r : Request) (s : State) (cfg : TimelockConfig) (i : ℕ)
    (op : TimelockOperation)
    → s.config ≡ some cfg
    → AllOperations cfg s
    → s.operations i ≡ some op
    → IsFinal op
    → (step f c r s).operations i ≡ some op
unfolding step
step-IsFinal f c (init new) s cfg i op e h m t = elim (init_cases c new s) [
  | inl p ↦ cc
  | inr (unset, _, _) ↦ absurd (cc)
]
step-IsFinal f c (propose a action delay) s cfg i op e h m t =
    unfold propose_action in ground (arith, h i op m)
step-IsFinal f c (approve a j) s cfg i op e h m t = elim (Option-cases (s.operations j)) [
  | inl n ↦ unfold approve_action in ground arith
  | inr (op', n) ↦ unfold approve_action in ground (arith, h j op' n)
]
step-IsFinal f c (cancel a j reason) s cfg i op e h m t = elim (Option-cases (s.operations j)) [
  | inl n ↦ unfold cancel_action in ground arith
  | inr (op', n) ↦ unfold cancel_action in ground (arith, h j op' n)
]
step-IsFinal f c (execute a j) s cfg i op e h m t = elim (Option-cases (s.operations j)) [
  | inl n ↦ unfold execute_action in ground arith
  | inr (op', n) ↦
      unfold execute_action in ground (arith, h j op' n, perform_action_frame f c cfg op'.action s)
]
