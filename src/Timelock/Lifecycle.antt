-- ===== src/Timelock/Lifecycle.antt =====
-- A proposal to timelock.rs that its signers approve is queued.
use chain_logistics.Base.{
  ℕ, ◌+◌, ◌≤◌, ◌≡◌, true, false, List, [], ◌∷◌, some, arith, leb, length, contains, push_back,
  length-push_back, if◌then◌else◌,
}
use chain_logistics.Host.Call.{Address, Ctx}
use chain_logistics.Timelock.State.{
  queued, pending_approvals, TimelockConfig, TimelockAction, TimelockStatus, TimelockOperation,
  State, get_next_operation_id,
}
use chain_logistics.Timelock.Handlers.{propose_action, approve_action}

-- A signer who has authorised the call.
abbrev pub IsSigned : TimelockConfig → Ctx → Address → Type 0
IsSigned cfg c a = (contains cfg.signers a ≡ true) × (c.authorized a ≡ true)

-- Approvals one after another, each in an invocation of its own.
unfoldable pub approve_all : ℕ → List (Ctx × Address) → State → State
approve_all i [] s = s
approve_all i ((c, a) ∷ rs) s = approve_all i rs (approve_action c a i s).1

-- They are of signers who have not approved before.
abbrev pub AllFresh : TimelockConfig → List Address → List (Ctx × Address) → Type 0
AllFresh cfg approvals [] = Unit
AllFresh cfg approvals ((c, a) ∷ rs) =
    IsSigned cfg c a × (contains approvals a ≡ false) × AllFresh cfg (push_back approvals a) rs

abbrev pub approvals_of : List Address → List (Ctx × Address) → List Address
approvals_of approvals [] = approvals
approvals_of approvals ((c, a) ∷ rs) = approvals_of (push_back approvals a) rs

-- The status of an operation with these approvals that nobody has cancelled or executed.
abbrev pub open_status : TimelockConfig → List Address → TimelockStatus
open_status cfg approvals =
    if leb cfg.threshold (length approvals) then queued else pending_approvals

abbrev pub open_with : TimelockConfig → TimelockOperation → List Address → TimelockOperation
open_with cfg op approvals = record op { approvals = approvals; status = open_status cfg approvals }

approve_one :
    (c : Ctx) (a : Address) (i : ℕ) (s : State) (cfg : TimelockConfig) (op : TimelockOperation)
    (approvals : List Address)
    → s.config ≡ some cfg
    → s.operations i ≡ some (open_with cfg op approvals)
    → op.id ≡ i
    → IsSigned cfg c a
    → contains approvals a ≡ false
    → length approvals + 1 ≤ cfg.threshold
    → let s' = (approve_action c a i s).1 in
      (s'.config ≡ some cfg) × (s'.operations i ≡ some (open_with cfg op (push_back approvals a)))
unfolding approve_action
approve_one c a i s cfg op approvals e m n signed fresh more =
    let l = length-push_back approvals a in
    (ground (arith, e, m, n, signed), ground (arith, e, m, n, signed, fresh, l))

-- As many fresh approvals as are missing queue the operation.
pub approve_all_queues :
    (i : ℕ) (rs : List (Ctx × Address)) (s : State) (cfg : TimelockConfig) (op : TimelockOperation)
    (approvals : List Address)
    → s.config ≡ some cfg
    → s.operations i ≡ some (open_with cfg op approvals)
    → op.id ≡ i
    → AllFresh cfg approvals rs
    → length approvals + length rs ≡ cfg.threshold
    → let s' = approve_all i rs s in
      (s'.config ≡ some cfg)
      × (s'.operations i
          ≡ some (record op { approvals = approvals_of approvals rs; status = queued }))
unfolding approve_all
approve_all_queues i [] s cfg op approvals e m n fresh l =
    let reached : leb cfg.threshold (length approvals) ≡ true = ground (arith, l) in
    (e, ground (arith, m, reached))
approve_all_queues i ((c, a) ∷ rs) s cfg op approvals e m n (signed, new, fresh) l =
    let (e', m') = approve_one c a i s cfg op approvals e m n signed new (omega (arith, l)) in
    approve_all_queues i rs (approve_action c a i s).1 cfg op (push_back approvals a) e' m' n fresh
      (omega (arith, l, length-push_back approvals a))

-- The operation that a proposal makes.
abbrev pub proposed :
    Ctx → Address → TimelockAction → ℕ → TimelockConfig → State → TimelockOperation
proposed c p action delay cfg s = record {
  id = get_next_operation_id s;
  proposer = p;
  action = action;
  created_at = c.timestamp;
  ready_at = c.timestamp + delay;
  execute_by = c.timestamp + delay + cfg.grace_period_seconds;
  status = pending_approvals;
  approvals = p ∷ [];
  required_approvals = cfg.threshold;
  is_executed = false;
}

-- A delay that is admitted, and times and numbers that do not overflow.
pub record IsProposable (c : Ctx) (delay : ℕ) (cfg : TimelockConfig) (s : State) : Type 0 where
  pub long_enough : cfg.min_delay_seconds ≤ delay
  pub short_enough : delay ≤ cfg.max_delay_seconds
  pub numbered : get_next_operation_id s + 1 ≤ 18446744073709551615
  pub timed : c.timestamp + delay + cfg.grace_period_seconds ≤ 18446744073709551615

pub propose_action_opens :
    (c : Ctx) (p : Address) (action : TimelockAction) (delay : ℕ) (s : State) (cfg : TimelockConfig)
    → s.config ≡ some cfg
    → IsSigned cfg c p
    → IsProposable c delay cfg s
    → let s' = (propose_action c p action delay s).1 in
      (s'.config ≡ some cfg)
      × (s'.operations (get_next_operation_id s)
          ≡ some (open_with cfg (proposed c p action delay cfg s) (p ∷ [])))
unfolding propose_action
propose_action_opens c p action delay s cfg e signed ready = (
  ground (arith, e, signed, ready.long_enough, ready.short_enough, ready.numbered, ready.timed),
  ground (arith, e, signed, ready.long_enough, ready.short_enough, ready.numbered, ready.timed),
)
