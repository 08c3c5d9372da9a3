-- ===== src/Products/Ownership.antt =====
-- The agreement of product_registry.rs and authorization.rs on the owners of products.
use chain_logistics.Base.{
  ◌≤◌, ◌≡◌, ◌∙◌, sym, ap, subst, inl, inr, Option, some, String, arith, len, str_eq, if◌then◌else◌,
  eq_iff, Bool-cases,
}
use chain_logistics.Host.Call.{Address, Keyed, put_at}
use chain_logistics.Products.State.{Product, World}

pub record IsAgreed (owner : String → Option Address) (p : String) (product : Product)
    : Type 0 where
  pub keyed : product.id ≡ p
  pub named : 1 ≤ len p
  pub recorded : owner p ≡ some product.owner

abbrev pub Agree : Keyed Product → (String → Option Address) → Type 0
Agree product owner = (p : String) (x : Product) → product p ≡ some x → IsAgreed owner p x

-- Every product in the registry is stored under its number, and the authorization contract has
-- the owner that the registry has.
abbrev pub OwnershipInv : World → Type 0
OwnershipInv w = Agree w.registry.product w.auth.owner

-- The owner of a product is written in both contracts.
pub Agree-move :
    (product : Keyed Product) (owner : String → Option Address) (p : String) (x : Product)
    → Agree product owner
    → x.id ≡ p
    → 1 ≤ len p
    → Agree (put_at x.id x product) (λ q. if str_eq p q then some x.owner else owner q)
Agree-move product owner p x h keyed named q y e = elim (Bool-cases (str_eq p q)) [
  | inl t ↦
      let pq = (eq_iff p q).0 t in
      let xy : x ≡ y = ground (arith, e, keyed, t) in
      record {
        keyed = sym (ap (λ k. k.id) xy) ∙ keyed ∙ pq;
        named = subst (λ r. 1 ≤ len r) pq named;
        recorded = ground (arith, t, xy);
      }
  | inr t ↦
      let old : product q ≡ some y = ground (arith, e, keyed, t) in
      let k = h q y old in
      record { keyed = k.keyed; named = k.named; recorded = ground (arith, t, k.recorded) }
]

-- A product is written again with the owner that it has.
pub Agree-rewrite :
    (product : Keyed Product) (owner : String → Option Address) (p : String) (x : Product)
    → Agree product owner
    → IsAgreed owner p x
    → Agree (put_at x.id x product) owner
Agree-rewrite product owner p x h a q y e = elim (Bool-cases (str_eq p q)) [
  | inl t ↦
      let pq = (eq_iff p q).0 t in
      let xy : x ≡ y = ground (arith, e, a.keyed, t) in
      subst (λ r. IsAgreed owner r y) pq (subst (IsAgreed owner p) xy a)
  | inr t ↦ h q y (ground (arith, e, a.keyed, t))
]
