-- ===== src/Timelock/Invariant.antt =====
-- The invariant of timelock.rs, and that every entry point keeps it.
use chain_logistics.Base.{
  ℕ, ◌+◌, ◌≤◌, ◌<◌, ◌≡◌, refl, sym, subst, ◌⊎◌, inl, inr, none, some, List, [], ◌∷◌, arith, length,
  contains, Distinct, IsSubset, push_back-Distinct, push_back-IsSubset, length-push_back,
  Option-cases, has_duplicate_iff,
}
use chain_logistics.Host.Call.{Address, Symbol, Ctx, require_all_cases}
use chain_logistics.Timelock.State.{
  TimelockConfig, TimelockAction, pause_main, pending_approvals, queued, executed,
  TimelockOperation, State, empty, get_next_operation_id,
}
use chain_logistics.Timelock.Actions.{Callee, perform_action}
use chain_logistics.Timelock.Handlers.{
  min_delay_floor, max_delay_ceiling, timelock_init, propose_action, approve_action, cancel_action,
  execute_action,
}
use chain_logistics.Timelock.Requests.{Request, init, propose, approve, cancel, execute, step, run}

-- What `validate_config` asks for.
pub record IsConfig (cfg : TimelockConfig) : Type 0 where
  pub some_signer : 1 ≤ length cfg.signers
  pub threshold_pos : 1 ≤ cfg.threshold
  pub threshold_met : cfg.threshold ≤ length cfg.signers
  pub min_delay : min_delay_floor ≤ cfg.min_delay_seconds
  pub delays : cfg.min_delay_seconds ≤ cfg.max_delay_seconds
  pub max_delay : cfg.max_delay_seconds ≤ max_delay_ceiling
  pub grace_pos : 1 ≤ cfg.grace_period_seconds
  pub grace : cfg.grace_period_seconds ≤ max_delay_ceiling
  pub distinct : Distinct cfg.signers

-- What holds of the operation stored under `i`.
pub record IsOperation (cfg : TimelockConfig) (next i : ℕ) (op : TimelockOperation) : Type 0 where
  pub keyed : op.id ≡ i
  pub numbered : op.id < next
  pub distinct : Distinct op.approvals
  pub by_signers : IsSubset op.approvals cfg.signers
  pub required : op.required_approvals ≡ cfg.threshold
  pub pending_short : op.status ≡ pending_approvals → length op.approvals < cfg.threshold
  pub queued_reached : op.status ≡ queued → cfg.threshold ≤ length op.approvals
  pub executed_reached : op.status ≡ executed → cfg.threshold ≤ length op.approvals
  pub ready_after : op.created_at + cfg.min_delay_seconds ≤ op.ready_at
  pub ready_before : op.ready_at ≤ op.created_at + cfg.max_delay_seconds
  pub window : op.execute_by ≡ op.ready_at + cfg.grace_period_seconds

-- Before `timelock_init` nothing is stored.
abbrev pub TimelockInv : State → Type 0
TimelockInv s =
    ((s.config ≡ none) × ((i : ℕ) → s.operations i ≡ none))
    ⊎ ((cfg : TimelockConfig) × (s.config ≡ some cfg)
        × IsConfig cfg
        × ((i : ℕ) (op : TimelockOperation)
            → s.operations i ≡ some op
            → IsOperation cfg (get_next_operation_id s) i op))

-- An operation is stored well under its number.
abbrev pub AllOperations : TimelockConfig → State → Type 0
AllOperations cfg s =
    (i : ℕ) (op : TimelockOperation)
    → s.operations i ≡ some op
    → IsOperation cfg (get_next_operation_id s) i op

approve-AllOperations :
    (c : Ctx) (a : Address) (id : ℕ) (s : State) (cfg : TimelockConfig)
    → s.config ≡ some cfg
    → AllOperations cfg s
    → AllOperations cfg (approve_action c a id s).1
unfolding approve_action
approve-AllOperations c a id s cfg e h i op' = elim (Option-cases (s.operations id)) [
  | inl m ↦ ground (arith, h i op')
  | inr (op, m) ↦ ground (
    arith,
    h id op m,
    h i op',
    push_back-Distinct op.approvals a,
    push_back-IsSubset op.approvals a cfg.signers,
    length-push_back op.approvals a,
  )
]

cancel-AllOperations :
    (c : Ctx) (a : Address) (id : ℕ) (reason : Symbol) (s : State) (cfg : TimelockConfig)
    → AllOperations cfg s
    → AllOperations cfg (cancel_action c a id reason s).1
unfolding cancel_action
cancel-AllOperations c a id reason s cfg h i op' = elim (Option-cases (s.operations id)) [
  | inl m ↦ ground (arith, h i op')
  | inr (op, m) ↦ ground (arith, h id op m, h i op')
]

propose-AllOperations :
    (c : Ctx) (a : Address) (action : TimelockAction) (delay : ℕ) (s : State) (cfg : TimelockConfig)
    → s.config ≡ some cfg
    → IsConfig cfg
    → AllOperations cfg s
    → AllOperations cfg (propose_action c a action delay s).1
unfolding propose_action contains
propose-AllOperations c a action delay s cfg e v h i op' = ground (arith, h i op')

-- The call that an action makes leaves the timelock's own storage alone.
pub perform_action_frame :
    (f : Callee) (c : Ctx) (cfg : TimelockConfig) (action : TimelockAction) (s : State)
    → let s' = (perform_action f c cfg action s).1 in
      (s'.config ≡ s.config)
      × (s'.next_operation_id ≡ s.next_operation_id)
      × (s'.operations ≡ s.operations)
unfolding perform_action
perform_action_frame f c cfg pause_main s = (refl, refl, refl)
perform_action_frame f c cfg _ s = (refl, refl, refl)

execute-AllOperations :
    (f : Callee) (c : Ctx) (a : Address) (id : ℕ) (s : State) (cfg : TimelockConfig)
    → s.config ≡ some cfg
    → AllOperations cfg s
    → AllOperations cfg (execute_action f c a id s).1
unfolding execute_action
execute-AllOperations f c a id s cfg e h i op' = elim (Option-cases (s.operations id)) [
  | inl m ↦ ground (arith, h i op')
  | inr (op, m) ↦ ground (arith, h id op m, h i op', perform_action_frame f c cfg op.action s)
]

-- `timelock_init` either stores a valid configuration where there was none, or nothing at all.
pub init_cases :
    (c : Ctx) (cfg : TimelockConfig) (s : State)
    → let s' = (timelock_init c cfg s).1 in
      (s' ≡ s)
      ⊎ ((s.config ≡ none)
          × IsConfig cfg
          × (s' ≡ record s { config = some cfg; next_operation_id = some 1 }))
unfolding timelock_init
init_cases c cfg s = elim (Option-cases s.config) [
  | inl e ↦ elim (require_all_cases c cfg.signers s) [
    | inl p ↦ ground (arith, has_duplicate_iff cfg.signers)
    | inr p ↦ ground (arith, has_duplicate_iff cfg.signers)
  ]
  | inr (old, e) ↦ inl (ground arith)
]

-- Once the contract is configured no request changes the configuration.
pub step-config :
    (f : Callee) (c : Ctx) (r : Request) (s : State) (cfg : TimelockConfig)
    → s.config ≡ some cfg
    → (step f c r s).config ≡ some cfg
unfolding step timelock_init propose_action approve_action cancel_action execute_action
step-config f c (init _) s cfg e = ground arith
step-config f c (propose a action delay) s cfg e = ground arith
step-config f c (approve a i) s cfg e = ground arith
step-config f c (cancel a i reason) s cfg e = ground arith
step-config f c (execute a i) s cfg e = elim (Option-cases (s.operations i)) [
  | inl m ↦ ground arith
  | inr (op, m) ↦ ground (arith, perform_action_frame f c cfg op.action s)
]

-- Before the contract is configured every request but a successful `init` changes nothing.
step_unconfigured :
    (f : Callee) (c : Ctx) (r : Request) (s : State)
    → s.config ≡ none
    → (step f c r s ≡ s)
      ⊎ ((cfg : TimelockConfig) × IsConfig cfg
          × (step f c r s ≡ record s { config = some cfg; next_operation_id = some 1 }))
unfolding step propose_action approve_action cancel_action execute_action
step_unconfigured f c (init cfg) s e = elim (init_cases c cfg s) [
  | inl p ↦ inl p
  | inr (_, v, p) ↦ inr (cfg, v, p)
]
step_unconfigured f c (propose a action delay) s e = inl (ground arith)
step_unconfigured f c (approve a i) s e = inl (ground arith)
step_unconfigured f c (cancel a i reason) s e = inl (ground arith)
step_unconfigured f c (execute a i) s e = inl (ground arith)

step-AllOperations :
    (f : Callee) (c : Ctx) (r : Request) (s : State) (cfg : TimelockConfig)
    → s.config ≡ some cfg
    → IsConfig cfg
    → AllOperations cfg s
    → AllOperations cfg (step f c r s)
unfolding step
step-AllOperations f c (init new) s cfg e v h = elim (init_cases c new s) [
  | inl p ↦ subst (AllOperations cfg) (sym p) h
  | inr (unset, _, _) ↦ absurd (cc)
]
step-AllOperations f c (propose a action delay) s cfg e v h =
    propose-AllOperations c a action delay s cfg e v h
step-AllOperations f c (approve a i) s cfg e v h = approve-AllOperations c a i s cfg e h
step-AllOperations f c (cancel a i reason) s cfg e v h = cancel-AllOperations c a i reason s cfg h
step-AllOperations f c (execute a i) s cfg e v h = execute-AllOperations f c a i s cfg e h

-- Every request, successful or not, keeps the invariant: the storage is empty, or the configuration
-- is valid, and every stored operation lies under its own number, below the next one; its approvals
-- are distinct and by signers; it is pending only below the threshold, and queued or executed only
-- with the threshold reached; and its window is as the configuration asks.
pub step-TimelockInv :
    (f : Callee) (c : Ctx) (r : Request) (s : State) → TimelockInv s → TimelockInv (step f c r s)
step-TimelockInv f c r s (inl (unset, none_stored)) = elim (step_unconfigured f c r s unset) [
  | inl p ↦ subst TimelockInv (sym p) (inl (unset, none_stored))
  | inr (cfg, v, p) ↦
      subst TimelockInv (sym p) (inr (cfg, refl, v, λ i op e. absurd (cc (none_stored i))))
]
step-TimelockInv f c r s (inr (cfg, e, v, h)) =
    inr (cfg, step-config f c r s cfg e, v, step-AllOperations f c r s cfg e v h)

-- In every state that requests reach from the empty storage the invariant holds.
pub run-TimelockInv :
    (f : Callee) (rs : List (Ctx × Request)) (s : State) → TimelockInv s → TimelockInv (run f rs s)
unfolding run
run-TimelockInv f [] s h = h
run-TimelockInv f ((c, r) ∷ rs) s h =
    run-TimelockInv f rs (step f c r s) (step-TimelockInv f c r s h)

pub empty-TimelockInv : TimelockInv empty
empty-TimelockInv = inl (refl, λ i. refl)
