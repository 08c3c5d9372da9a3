-- ===== src/Main/Control.antt =====
-- Who may change the administration of contract.rs.
use chain_logistics.Base.{
  ◌≡◌, refl, sym, subst, ◌⊎◌, inl, inr, true, none, some, arith, Option-cases,
}
use chain_logistics.Host.Call.{
  Address, Ctx, Call, Outcome, ok, err, trap, committed, committed-keeps,
}
use chain_logistics.Tracking.Requests.{NewEvent}
use chain_logistics.Main.State.{State}
use chain_logistics.Main.Handlers.{
  require_admin, init, pause, unpause, transfer_admin, set_multisig_contract, set_timelock_contract,
  simulate_multisig_pause,
}
use chain_logistics.Main.Events.{AuthContract}
use chain_logistics.Main.Adding.{add-added}
use chain_logistics.Main.Requests.{
  Request, setup, stop, go_on, hand_over, set_multisig, set_timelock, simulate, add_event, add,
  step, IsController, SameControl, controller_of,
}

pub require_admin_sound :
    (c : Ctx) (a : Address) (s : State) → (require_admin c a s).0 ≡ ok tt → IsController c a s
unfolding require_admin
require_admin_sound c a s h = elim (Option-cases s.admin) [
  | inl e ↦ absurd (ground (arith, e, h))
  | inr (d, e) ↦ elim (Option-cases s.multisig_contract) [
    | inl m ↦ elim (Option-cases s.timelock_contract) [
      | inl t ↦ ground (arith, e, m, t, h)
      | inr (u, t) ↦ ground (arith, e, m, t, h)
    ]
    | inr (n, m) ↦ elim (Option-cases s.timelock_contract) [
      | inl t ↦ ground (arith, e, m, t, h)
      | inr (u, t) ↦ ground (arith, e, m, t, h)
    ]
  ]
]

pub require_admin_state : (c : Ctx) (a : Address) (s : State) → (require_admin c a s).1 ≡ s
unfolding require_admin
require_admin_state c a s = ground arith

-- A call that only a controller makes succeed changes nothing for others.
controlled_step :
    (c : Ctx) (a : Address) (m : Call State (Unit {0})) (s : State)
    → ((m s).0 ≡ ok tt → (require_admin c a s).0 ≡ ok tt)
    → (committed m s ≡ s) ⊎ IsController c a s
controlled_step c a m s k = go (m s).0 refl
  where
    go : (r : Outcome (Unit {0})) → (m s).0 ≡ r → (committed m s ≡ s) ⊎ IsController c a s
    go (ok _) e = inr (require_admin_sound c a s (k e))
    go (err x) e = inl (ground (arith, e))
    go trap e = inl (ground (arith, e))

same : (s : State) → SameControl s s
same s = record {
  admin = refl;
  paused = refl;
  auth_contract = refl;
  multisig_contract = refl;
  timelock_contract = refl;
  product = refl;
}

-- The request is of a controller, or sets up a contract that has no administrator.
abbrev pub MayChange : Ctx → Request → State → Type 0
MayChange c r s =
    ((a : Address) × (controller_of r ≡ some a) × IsController c a s)
    ⊎ ((a : Address) × (b : Address) × (r ≡ setup a b) × (s.admin ≡ none) × (c.authorized a ≡ true))

by_controller :
    (c : Ctx) (r : Request) (a : Address) (s : State) {s' : State}
    → controller_of r ≡ some a
    → (s' ≡ s) ⊎ IsController c a s
    → SameControl s s' ⊎ MayChange c r s
by_controller c r a s e (inl k) = inl (subst (SameControl s) (sym k) (same s))
by_controller c r a s e (inr k) = inr (inl (a, e, k))

setup_cases :
    (c : Ctx) (a b : Address) (s : State)
    → (committed (init c a b) s ≡ s) ⊎ ((s.admin ≡ none) × (c.authorized a ≡ true))
unfolding init
setup_cases c a b s = ground arith

add_cases :
    (auth : AuthContract) (c : Ctx) (x : NewEvent) (s : State)
    → SameControl s (committed (add auth c x) s)
add_cases auth c x s = committed-keeps (SameControl s) (add auth c x) s (same s) λ n h.
    subst (SameControl s) (sym (add-added auth c x s h).0) (record {
      admin = refl;
      paused = refl;
      auth_contract = refl;
      multisig_contract = refl;
      timelock_contract = refl;
      product = refl;
    })

-- An invocation leaves administrator, pause, contracts and products as they are, unless it sets up a
-- contract without administrator, with the authorisation of the new one, or comes from the
-- administrator, the multisig or the timelock that are stored, who has authorised it or is the
-- contract itself (as multisig or timelock).
pub changed_by_controller :
    (auth : AuthContract) (c : Ctx) (r : Request) (s : State)
    → SameControl s (step auth c r s) ⊎ MayChange c r s
unfolding step pause unpause transfer_admin set_multisig_contract set_timelock_contract
    simulate_multisig_pause
changed_by_controller auth c (setup a b) s = elim (setup_cases c a b s) [
  | inl e ↦ inl (subst (SameControl s) (sym e) (same s))
  | inr (e, k) ↦ inr (inr (a, b, refl, e, k))
]
changed_by_controller auth c (stop a) s =
    by_controller c (stop a) a s refl (controlled_step c a (pause c a) s (λ h. ground (arith, h)))
changed_by_controller auth c (go_on a) s =
    by_controller c (go_on a) a s refl
      (controlled_step c a (unpause c a) s (λ h. ground (arith, h)))
changed_by_controller auth c (hand_over a b) s =
    by_controller c (hand_over a b) a s refl
      (controlled_step c a (transfer_admin c a b) s (λ h. ground (arith, h)))
changed_by_controller auth c (set_multisig a b) s =
    by_controller c (set_multisig a b) a s refl
      (controlled_step c a (set_multisig_contract c a b) s (λ h. ground (arith, h)))
changed_by_controller auth c (set_timelock a b) s =
    by_controller c (set_timelock a b) a s refl
      (controlled_step c a (set_timelock_contract c a b) s (λ h. ground (arith, h)))
changed_by_controller auth c (simulate a) s =
    by_controller c (simulate a) a s refl
      (controlled_step c a (simulate_multisig_pause c a) s (λ h. ground (arith, h)))
changed_by_controller auth c (add_event x) s = inl (add_cases auth c x s)
