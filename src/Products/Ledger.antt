-- ===== src/Products/Ledger.antt =====
-- What a batch transfer of product_transfer.rs is to do, on the owners alone.
use chain_logistics.Base.{
  ℕ, ◌+◌, ◌≡◌, refl, ◌∙◌, sym, ap, subst, inl, inr, Bool, Option, none, some, String, List, [], ◌∷◌,
  ◌++◌, ◌≢◌, ◌&&◌, ◌||◌, arith, str_eq, if◌then◌else◌, Bool-cases, eq_iff,
}
use chain_logistics.Host.Call.{Address, Keyed, put_at}
use chain_logistics.Products.State.{Product, ProductEvent, product_transferred, World, has_string}
use chain_logistics.Products.Transfer.{is_movable}
use chain_logistics.Products.Ownership.{Agree, Agree-move}

-- The products, their owners in the authorization contract, and the published events.
pub record Ledger : Type 0 where
  pub product : Keyed Product
  pub owner : String → Option Address
  pub log : List ProductEvent

abbrev pub ledger : World → Ledger
ledger w = record { product = w.registry.product; owner = w.auth.owner; log = w.transfer.log }

abbrev pub with_ledger : Ledger → World → World
with_ledger l w = record w {
  registry = record w.registry { product = l.product };
  auth = record w.auth { owner = l.owner };
  transfer = record w.transfer { log = l.log };
}

abbrev pub given : Address → Address → String → Product → Ledger → Ledger
given owner new_owner p x l = record {
  product = put_at x.id (record x { owner = new_owner }) l.product;
  owner = λ q. if str_eq p q then some new_owner else l.owner q;
  log = product_transferred p owner new_owner ∷ l.log;
}

abbrev pub given_if_movable : Address → Address → String → Ledger → Option Product → Ledger
given_if_movable owner new_owner p l none = l
given_if_movable owner new_owner p l (some x) =
    if is_movable owner (some x) then given owner new_owner p x l else l

-- One product: if it is stored, active and the owner's, it is given to the new owner.
unfoldable pub hand_over : Address → Address → String → Ledger → Ledger
hand_over owner new_owner p l = given_if_movable owner new_owner p l (l.product p)

unfoldable pub hand_over_all : Address → Address → List String → Ledger → Ledger
hand_over_all owner new_owner [] l = l
hand_over_all owner new_owner (p ∷ ps) l =
    hand_over_all owner new_owner ps (hand_over owner new_owner p l)

-- The number of products that are given.
unfoldable pub moves : Address → Address → List String → Ledger → ℕ
moves owner new_owner [] l = 0
moves owner new_owner (p ∷ ps) l =
    (if is_movable owner (l.product p) then 1 else 0)
    + moves owner new_owner ps (hand_over owner new_owner p l)

pub hand_over_all-++ :
    (owner new_owner : Address) (ps qs : List String) (l : Ledger)
    → hand_over_all owner new_owner (ps ++ qs) l
      ≡ hand_over_all owner new_owner qs (hand_over_all owner new_owner ps l)
unfolding hand_over_all
hand_over_all-++ owner new_owner [] qs l = refl
hand_over_all-++ owner new_owner (p ∷ ps) qs l =
    hand_over_all-++ owner new_owner ps qs (hand_over owner new_owner p l)

pub moves-++ :
    (owner new_owner : Address) (ps qs : List String) (l : Ledger)
    → moves owner new_owner (ps ++ qs) l
      ≡ moves owner new_owner ps l + moves owner new_owner qs (hand_over_all owner new_owner ps l)
unfolding hand_over_all moves
moves-++ owner new_owner [] qs l = omega arith
moves-++ owner new_owner (p ∷ ps) qs l =
    omega (arith, moves-++ owner new_owner ps qs (hand_over owner new_owner p l))

pub hand_over-Agree :
    (owner new_owner : Address) (p : String) (l : Ledger)
    → Agree l.product l.owner
    → Agree (hand_over owner new_owner p l).product (hand_over owner new_owner p l).owner
unfolding hand_over
hand_over-Agree owner new_owner p l h = go (l.product p) refl
  where
    go :
        (o : Option Product)
        → l.product p ≡ o
        → let r = given_if_movable owner new_owner p l o in Agree r.product r.owner
    go none e = h
    go (some x) e = elim (Bool-cases (is_movable owner (some x))) [
      | inl t ↦
          let k = h p x e in
          let moved =
            Agree-move l.product l.owner p (record x { owner = new_owner }) h k.keyed k.named in
          subst
            (λ b. let r = if b then given owner new_owner p x l else l in Agree r.product r.owner)
            (sym t) moved
      | inr t ↦
          subst
            (λ b. let r = if b then given owner new_owner p x l else l in Agree r.product r.owner)
            (sym t) h
    ]

abbrev pub given_to : Address → Option Product → Option Product
given_to new_owner o = elim o [ none ↦ none | some x ↦ some (record x { owner = new_owner }) ]

hand_over-product :
    (owner new_owner : Address) (p : String) (l : Ledger)
    → Agree l.product l.owner
    → (q : String)
    → (hand_over owner new_owner p l).product q ≡ (
        if str_eq p q && is_movable owner (l.product q)
        then given_to new_owner (l.product q)
        else l.product q)
unfolding hand_over
hand_over-product owner new_owner p l h q = go (l.product p) refl
  where
    go :
        (o : Option Product)
        → l.product p ≡ o
        → (given_if_movable owner new_owner p l o).product q ≡ (
            if str_eq p q && is_movable owner (l.product q)
            then given_to new_owner (l.product q)
            else l.product q)
    go none e = elim (Bool-cases (str_eq p q)) [
      | inl t ↦
          let e' : l.product q ≡ none = ap l.product (sym ((eq_iff p q).0 t)) ∙ e in
          ground (arith, t, e')
      | inr t ↦ ground (arith, t)
    ]
    go (some x) e = elim (Bool-cases (str_eq p q)) [
      | inl t ↦
          let e' : l.product q ≡ some x = ap l.product (sym ((eq_iff p q).0 t)) ∙ e in
          ground (arith, t, e', (h p x e).keyed)
      | inr t ↦ ground (arith, t, (h p x e).keyed)
    ]

-- A product that has been given is not given again.
given_once :
    (owner new_owner : Address) (o o' : Option Product) (b b' : Bool)
    → owner ≢ new_owner
    → o' ≡ (if b && is_movable owner o then given_to new_owner o else o)
    → (if b' && is_movable owner o' then given_to new_owner o' else o')
      ≡ (if (b || b') && is_movable owner o then given_to new_owner o else o)
given_once owner new_owner none o' b b' d e = ground arith
given_once owner new_owner (some x) o' b b' d e = ground arith

-- Over a batch each product in it that is active and the owner's gets the new owner, once; every
-- other product stays as it is.
pub hand_over_all-product :
    (owner new_owner : Address) (ps : List String) (l : Ledger)
    → owner ≢ new_owner
    → Agree l.product l.owner
    → (q : String)
    → (hand_over_all owner new_owner ps l).product q ≡ (
        if has_string ps q && is_movable owner (l.product q)
        then given_to new_owner (l.product q)
        else l.product q)
unfolding hand_over_all has_string
hand_over_all-product owner new_owner [] l d h q = refl
hand_over_all-product owner new_owner (p ∷ ps) l d h q =
    let rest =
      hand_over_all-product owner new_owner ps (hand_over owner new_owner p l) d
        (hand_over-Agree owner new_owner p l h) q in
    rest
    ∙ given_once owner new_owner (l.product q) ((hand_over owner new_owner p l).product q)
        (str_eq p q) (has_string ps q) d (hand_over-product owner new_owner p l h q)
