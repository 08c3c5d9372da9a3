-- ===== src/Main/Adding.antt =====
-- When contract.rs adds an event, and that its indexes stay in step.
use chain_logistics.Base.{
  ℕ, ◌+◌, ◌≡◌, ap, ◌∙◌, sym, subst, inl, inr, true, false, some, arith, Option-cases,
}
use chain_logistics.Host.Call.{Address, Ctx, ok}
use chain_logistics.Validation.{validate_metadata_pure}
use chain_logistics.Products.State.{Product}
use chain_logistics.Tracking.State as TrackingStore
use chain_logistics.Tracking.Requests.{NewEvent, last_event, added}
use chain_logistics.Tracking.Growth.{TrackingInv, added-TrackingInv}
use chain_logistics.Main.State.{State, is_paused, on_events}
use chain_logistics.Main.Events.{
  AuthContract, require_can_add_event, store_event, add_tracking_event,
}
use chain_logistics.Main.Requests.{add}

store_event-added :
    (c : Ctx) (x : NewEvent) (e : TrackingStore.State) {n : ℕ}
    → (store_event c x.by x.product x.kind x.location x.data_hash x.note x.metadata e).0 ≡ ok n
    → ((store_event c x.by x.product x.kind x.location x.data_hash x.note x.metadata e).1
        ≡ added c x e)
      × (n ≡ last_event e + 1)
unfolding store_event
store_event-added c x e h = ground (arith, h)

-- The conditions on which an event is added.
pub record MayAdd (auth : AuthContract) (c : Ctx) (x : NewEvent) (s : State) : Type 0 where
  pub not_paused : is_paused s ≡ false
  pub product : Product
  pub stored : s.product x.product ≡ some product
  pub active : product.active ≡ true
  pub authorized : c.authorized x.by ≡ true
  pub auth_contract : Address
  pub configured : s.auth_contract ≡ some auth_contract
  pub allowed : auth auth_contract x.product x.by ≡ some true

may_add :
    (auth : AuthContract) (c : Ctx) (x : NewEvent) (s : State) {n : ℕ}
    → (add auth c x s).0 ≡ ok n
    → MayAdd auth c x s
unfolding add_tracking_event require_can_add_event
may_add auth c x s h = elim (Option-cases (s.product x.product)) [
  | inl e ↦ absurd (ground (arith, e, h))
  | inr (p, e) ↦ elim (Option-cases s.auth_contract) [
    | inl m ↦ absurd (ground (arith, e, m, h))
    | inr (a, m) ↦ elim (Option-cases (auth a x.product x.by)) [
      | inl n ↦ absurd (ground (arith, e, m, n, h))
      | inr (b, n) ↦ record {
        not_paused = ground (arith, h);
        product = p;
        stored = e;
        active = ground (arith, e, h);
        authorized = ground (arith, e, h);
        auth_contract = a;
        configured = m;
        allowed = ground (arith, e, m, n, h);
      }
    ]
  ]
]

-- All tests passed, the writes follow.
goes_on :
    (auth : AuthContract) (c : Ctx) (x : NewEvent) (s : State) {n : ℕ}
    → MayAdd auth c x s
    → (add auth c x s).0 ≡ ok n
    → add auth c x s
      ≡ on_events (store_event c x.by x.product x.kind x.location x.data_hash x.note x.metadata) s
unfolding add_tracking_event require_can_add_event
goes_on auth c x s m h = elim (validate_metadata_pure s x.metadata) [
  | inl e ↦ ground (arith, e, h, m.stored, m.configured, m.allowed, m.not_paused)
  | inr (v, e) ↦ absurd (ground (arith, e, h))
]

pub add-added :
    (auth : AuthContract) (c : Ctx) (x : NewEvent) (s : State) {n : ℕ}
    → (add auth c x s).0 ≡ ok n
    → ((add auth c x s).1 ≡ record s { events = added c x s.events })
      × (n ≡ last_event s.events + 1)
add-added auth c x s h =
    let same = goes_on auth c x s (may_add auth c x s h) h in
    let stored = sym (ap (λ z. z.0) same) ∙ h in
    let (e, k) = store_event-added c x s.events stored in
    (ap (λ z. z.1) same ∙ ap (λ v. record s { events = v }) e, k)

-- If an event is added to events whose lists and indexes are in step, the contract is not paused, the
-- product is stored and active, the actor has authorised the call, and the authorization contract
-- answers that the actor may act on the product; the event is stored under the next number, which is
-- returned, nothing else changes, and the lists and indexes stay in step.
pub add_tracking_event_sound :
    (auth : AuthContract) (c : Ctx) (x : NewEvent) (s : State) {n : ℕ}
    → TrackingInv s.events
    → (add auth c x s).0 ≡ ok n
    → MayAdd auth c x s
      × ((add auth c x s).1 ≡ record s { events = added c x s.events })
      × (n ≡ last_event s.events + 1)
      × TrackingInv (add auth c x s).1.events
add_tracking_event_sound auth c x s inv h =
    let (e, k) = add-added auth c x s h in
    (
      may_add auth c x s h,
      e,
      k,
      subst TrackingInv (sym (ap (λ (t : State). t.events) e)) (added-TrackingInv c x s.events inv),
    )
