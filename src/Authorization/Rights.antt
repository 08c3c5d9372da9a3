-- ===== src/Authorization/Rights.antt =====
-- Whose call changes a right in authorization.rs.
use chain_logistics.Base.{
  ◌≡◌, ap, ◌≢◌, ◌⊎◌, inl, inr, true, some, String, str_eq, eq_iff, arith, Option-cases, Bool-cases,
}
use chain_logistics.Host.Call.{Address, Ctx, ok}
use chain_logistics.Authorization.State.{State}
use chain_logistics.Authorization.Handlers.{
  configure_initializer, init_product_owner, update_product_owner, add_authorized_actor,
  remove_authorized_actor, is_authorized,
}
use chain_logistics.Authorization.Requests.{
  Request, configure, register, hand_over, grant, revoke, step,
}

-- The answer for `b` on the product `p` is the same in both states.
abbrev pub SameRight : String → Address → State → State → Type 0
SameRight p b s s' = (is_authorized p b s').0 ≡ (is_authorized p b s).0

grant_cases :
    (c : Ctx) (a : Address) (q p : String) (x b o : Address) (s : State)
    → s.owner p ≡ some o
    → SameRight p b s (add_authorized_actor c a q x s).1
      ⊎ ((c.authorized o ≡ true) × (a ≡ o) × (q ≡ p) × (x ≡ b))
unfolding is_authorized add_authorized_actor
grant_cases c a q p x b o s e = elim (Option-cases (s.owner q)) [
  | inl n ↦ ground (arith, (eq_iff q p).0)
  | inr (w, n) ↦ elim (Bool-cases (str_eq q p)) [
    | inl t ↦
        let u = (eq_iff q p).0 t in
        let same : s.owner q ≡ s.owner p = ap s.owner u in ground (arith, same, u)
    | inr t ↦ ground arith
  ]
]

revoke_cases :
    (c : Ctx) (a : Address) (q p : String) (x b o : Address) (s : State)
    → s.owner p ≡ some o
    → SameRight p b s (remove_authorized_actor c a q x s).1
      ⊎ ((c.authorized o ≡ true) × (a ≡ o) × (q ≡ p) × (x ≡ b))
unfolding is_authorized remove_authorized_actor
revoke_cases c a q p x b o s e = elim (Option-cases (s.owner q)) [
  | inl n ↦ ground (arith, (eq_iff q p).0)
  | inr (w, n) ↦ elim (Bool-cases (str_eq q p)) [
    | inl t ↦
        let u = (eq_iff q p).0 t in
        let same : s.owner q ≡ s.owner p = ap s.owner u in ground (arith, same, u)
    | inr t ↦ ground arith
  ]
]

hand_over_cases :
    (c : Ctx) (a : Address) (q p : String) (x b o : Address) (s : State)
    → s.owner p ≡ some o
    → SameRight p b s (update_product_owner c a q x s).1
      ⊎ ((c.authorized o ≡ true) × (a ≡ o) × (q ≡ p) × ((b ≡ o) ⊎ (b ≡ x)))
unfolding is_authorized update_product_owner
hand_over_cases c a q p x b o s e = elim (Option-cases (s.owner q)) [
  | inl n ↦ ground (arith, (eq_iff q p).0)
  | inr (w, n) ↦ elim (Bool-cases (str_eq q p)) [
    | inl t ↦
        let u = (eq_iff q p).0 t in
        let same : s.owner q ≡ s.owner p = ap s.owner u in ground (arith, same, u)
    | inr t ↦ ground arith
  ]
]

register_same :
    (c : Ctx) (a : Address) (q p : String) (x b o : Address) (s : State)
    → s.owner p ≡ some o
    → SameRight p b s (init_product_owner c a q x s).1
unfolding is_authorized init_product_owner
register_same c a q p x b o s e = elim (Bool-cases (str_eq q p)) [
  | inl t ↦
      let u = (eq_iff q p).0 t in
      let same : s.owner q ≡ s.owner p = ap s.owner u in ground (arith, same, u)
  | inr t ↦ ground arith
]

-- The requests by `o` that can change what `b` may do with `p`.
abbrev pub IsAbout : Address → String → Address → Request → Type 0
IsAbout o p b r =
    (r ≡ grant o p b)
    ⊎ ((r ≡ revoke o p b) ⊎ ((n : Address) × (r ≡ hand_over o p n) × ((b ≡ o) ⊎ (b ≡ n))))

-- The answer of `is_authorized` for an address on a registered product changes only by a request of
-- the product's owner at that time, who has authorised it: a grant to this address, a revocation of
-- it, or a transfer of the product from or to it.
pub right_changed_by_owner :
    (c : Ctx) (r : Request) (p : String) (b o : Address) (s : State)
    → s.owner p ≡ some o
    → (is_authorized p b (step c r s)).0 ≢ (is_authorized p b s).0
    → (c.authorized o ≡ true) × IsAbout o p b r
unfolding step
right_changed_by_owner c (configure a) p b o s e h =
    absurd (h (unfold is_authorized configure_initializer in ground arith))
right_changed_by_owner c (register a q x) p b o s e h = absurd (h (register_same c a q p x b o s e))
right_changed_by_owner c (grant a q x) p b o s e h = elim (grant_cases c a q p x b o s e) [
  | inl k ↦ absurd (h k)
  | inr (u, ea, eq, ex) ↦ (u, inl (cc))
]
right_changed_by_owner c (revoke a q x) p b o s e h = elim (revoke_cases c a q p x b o s e) [
  | inl k ↦ absurd (h k)
  | inr (u, ea, eq, ex) ↦ (u, inr (inl (cc)))
]
right_changed_by_owner c (hand_over a q x) p b o s e h = elim (hand_over_cases c a q p x b o s e) [
  | inl k ↦ absurd (h k)
  | inr (u, ea, eq, w) ↦ (u, inr (inr (x, cc, w)))
]

-- A transfer of a product leaves every grant on it in force: whoever could add events and is not the
-- old owner still can.
pub transfer_keeps_actors :
    (c : Ctx) (a : Address) (p : String) (n b : Address) (s : State)
    → (update_product_owner c a p n s).0 ≡ ok tt
    → b ≢ a
    → (is_authorized p b s).0 ≡ ok true
    → (is_authorized p b (update_product_owner c a p n s).1).0 ≡ ok true
unfolding is_authorized update_product_owner
transfer_keeps_actors c a p n b s h d k = elim (Option-cases (s.owner p)) [
  | inl m ↦ ground arith
  | inr (o, m) ↦ ground arith
]
