-- ===== src/Products/Moves.antt =====
-- What moving a product to a new owner does in product_registry.rs and in authorization.rs.
use chain_logistics.Base.{
  inl, inr, Option-cases, ◌≤◌, ◌≡◌, ◌≢◌, ◌∙◌, sym, ap, true, false, some, String, arith, len, ◌∷◌,
}
use chain_logistics.Host.Call.{Address, Ctx, ok}
use chain_logistics.Authorization.State.{set_owner}
use chain_logistics.Authorization.Handlers.{update_product_owner}
use chain_logistics.Products.State.{
  Product, product_transferred, TransferState, World, try_get_product, put_product, set_lock,
}
use chain_logistics.Products.Registry.{transfer_owner}
use chain_logistics.Products.Transfer.{move_product, transfer_product, transfer_checked}

abbrev pub moved : String → Product → Address → World → World
moved p product new_owner w = record w {
  registry = put_product (record product { owner = new_owner }) w.registry;
  auth = set_owner p new_owner w.auth;
}

-- The registry and the authorization contract agree that `owner` may move the active product.
pub record IsMovable (owner : Address) (p : String) (product : Product) (w : World) : Type 0 where
  pub stored : w.registry.product p ≡ some product
  pub owned : product.owner ≡ owner
  pub active : product.active ≡ true
  pub recorded : w.auth.owner p ≡ some owner

pub move_product_ok :
    (c : Ctx) (m a owner : Address) (p : String) (new_owner : Address) (product : Product)
    (w : World)
    → IsMovable owner p product w
    → c.authorized owner ≡ true
    → w.registry.transfer_contract ≡ some c.current_contract_address
    → 1 ≤ len p
    → owner ≢ new_owner
    → w.registry_address ≡ m
    → w.auth_address ≡ a
    → move_product c m a owner p new_owner w ≡ (ok tt, moved p product new_owner w)
unfolding update_product_owner transfer_owner
move_product_ok c m a owner p new_owner product w h signed trusted named distinct em ea =
    ground (arith, em, ea, h.stored, h.owned, h.active, h.recorded)

pub move_product_sound :
    (c : Ctx) (m a owner : Address) (p : String) (new_owner : Address) (product : Product)
    (w : World)
    → w.registry.product p ≡ some product
    → (move_product c m a owner p new_owner w).0 ≡ ok tt
    → (w.registry_address ≡ m)
      × (w.auth_address ≡ a)
      × (w.auth.owner p ≡ some owner)
      × (w.registry.transfer_contract ≡ some c.current_contract_address)
      × ((move_product c m a owner p new_owner w).1 ≡ moved p product new_owner w)
unfolding update_product_owner transfer_owner
move_product_sound c m a owner p new_owner product w stored h = ground arith

-- The transfer contract takes the lock, and gives it back, around a transfer.
abbrev pub relocked : String → TransferState → TransferState
relocked scope t = record t { locks = set_lock scope false (set_lock scope true t.locks) }

-- What a transfer leaves.
abbrev pub transferred : Address → String → Address → Product → World → World
transferred owner p new_owner product w =
    let m = moved p product new_owner w in
    let t = relocked "transfer_product" w.transfer in
    record m {
      transfer = record t { log = product_transferred p owner new_owner ∷ w.transfer.log };
    }

pub record IsTransfer (c : Ctx) (owner : Address) (p : String) (new_owner : Address)
    (product : Product) (w : World) : Type 0 where
  pub movable : IsMovable owner p product w
  pub signed : c.authorized owner ≡ true
  pub accepted : c.authorized new_owner ≡ true
  pub distinct : owner ≢ new_owner
  pub main : w.transfer.main_contract ≡ some w.registry_address
  pub auth : w.transfer.auth_contract ≡ some w.auth_address
  pub trusted : w.registry.transfer_contract ≡ some c.current_contract_address

-- A transfer that passes its checks.
pub record IsChecked (c : Ctx) (owner : Address) (p : String) (new_owner : Address)
    (product : Product) (m a : Address) (w : World) : Type 0 where
  pub owned : product.owner ≡ owner
  pub active : product.active ≡ true
  pub signed : c.authorized owner ≡ true
  pub accepted : c.authorized new_owner ≡ true
  pub distinct : owner ≢ new_owner
  pub named : 1 ≤ len p
  pub goes_on : transfer_product c owner p new_owner w ≡ transfer_checked c m a owner p new_owner w

IsChecked_lem :
    (c : Ctx) (owner : Address) (p : String) (new_owner : Address) (product : Product)
    (m a : Address) (w : World)
    → try_get_product m p w ≡ some product
    → w.transfer.main_contract ≡ some m
    → w.transfer.auth_contract ≡ some a
    → (transfer_product c owner p new_owner w).0 ≡ ok tt
    → IsChecked c owner p new_owner product m a w
unfolding transfer_product
IsChecked_lem c owner p new_owner product m a w e em ea h = record {
  owned = ground (arith, e, em, ea, h);
  active = ground (arith, e, em, ea, h);
  signed = ground (arith, h);
  accepted = ground (arith, h);
  distinct = ground (arith, h);
  named = ground (arith, h);
  goes_on = ground (arith, e, em, ea, h);
}

transfer_checked_sound :
    (c : Ctx) (m a owner : Address) (p : String) (new_owner : Address) (product : Product)
    (w : World)
    → w.registry.product p ≡ some product
    → (transfer_checked c m a owner p new_owner w).0 ≡ ok tt
    → (w.registry_address ≡ m)
      × (w.auth_address ≡ a)
      × (w.auth.owner p ≡ some owner)
      × (w.registry.transfer_contract ≡ some c.current_contract_address)
      × ((transfer_checked c m a owner p new_owner w).1 ≡ transferred owner p new_owner product w)
unfolding transfer_checked update_product_owner transfer_owner
transfer_checked_sound c m a owner p new_owner product w stored h = ground arith

configured :
    (c : Ctx) (owner : Address) (p : String) (new_owner : Address) (w : World)
    → (transfer_product c owner p new_owner w).0 ≡ ok tt
    → (m a : Address) × (product : Product) × (w.transfer.main_contract ≡ some m)
      × (w.transfer.auth_contract ≡ some a)
      × (try_get_product m p w ≡ some product)
unfolding transfer_product
configured c owner p new_owner w h = elim (Option-cases w.transfer.main_contract) [
  | inl e ↦ absurd (ground (arith, e, h))
  | inr (m, em) ↦ elim (Option-cases w.transfer.auth_contract) [
    | inl e ↦ absurd (ground (arith, e, em, h))
    | inr (a, ea) ↦ elim (Option-cases (try_get_product m p w)) [
      | inl e ↦ absurd (ground (arith, e, em, ea, h))
      | inr (product, e) ↦ (m, a, product, em, ea, e)
    ]
  ]
]

pub found :
    (m : Address) (p : String) (product : Product) (w : World)
    → try_get_product m p w ≡ some product
    → (w.registry_address ≡ m) × (w.registry.product p ≡ some product)
found m p product w e = (ground (arith, e), ground (arith, e))

-- A successful transfer has been authorised by both addresses, which differ; the transfer contract
-- has the addresses of the registry, which trusts it, and of the authorization contract; the product
-- is stored and active, the registry and the authorization contract both have the one as its owner, and
-- both then have the other, with nothing else changed in either of them.
pub transfer_product_sound :
    (c : Ctx) (owner : Address) (p : String) (new_owner : Address) (w : World)
    → (transfer_product c owner p new_owner w).0 ≡ ok tt
    → (product : Product) × IsTransfer c owner p new_owner product w
      × ((transfer_product c owner p new_owner w).1 ≡ transferred owner p new_owner product w)
transfer_product_sound c owner p new_owner w h =
    let (m, a, product, em, ea, e) = configured c owner p new_owner w h in
    let k = IsChecked_lem c owner p new_owner product m a w e em ea h in
    let (there, stored) = found m p product w e in
    let (_, at, recorded, trusted, effect) =
      transfer_checked_sound c m a owner p new_owner product w stored
        (sym (ap (λ r. r.0) k.goes_on) ∙ h) in
    (
      product,
      record {
        movable = record {
          stored = stored;
          owned = k.owned;
          active = k.active;
          recorded = recorded;
        };
        signed = k.signed;
        accepted = k.accepted;
        distinct = k.distinct;
        main = em ∙ ap some (sym there);
        auth = ea ∙ ap some (sym at);
        trusted = trusted;
      },
      ap (λ r. r.1) k.goes_on ∙ effect,
    )

transfer_checked_ok :
    (c : Ctx) (owner : Address) (p : String) (new_owner : Address) (product : Product) (w : World)
    → IsTransfer c owner p new_owner product w
    → 1 ≤ len p
    → w.transfer.locks "transfer_product" ≡ false
    → transfer_checked c w.registry_address w.auth_address owner p new_owner w
      ≡ (ok tt, transferred owner p new_owner product w)
unfolding transfer_checked update_product_owner transfer_owner
transfer_checked_ok c owner p new_owner product w h named free = ground (
  arith, h.movable.stored, h.movable.owned, h.movable.active, h.movable.recorded, h.signed,
  h.distinct, h.trusted,
)

-- A transfer that both addresses, which differ, authorise succeeds: where the number has 1 to 64
-- characters, the transfer contract has the addresses of the registry, which trusts it, and of the
-- authorization contract, the two agree on the owner of the active product, and no transfer is under
-- way.
pub transfer_product_succeeds :
    (c : Ctx) (owner : Address) (p : String) (new_owner : Address) (product : Product) (w : World)
    → IsTransfer c owner p new_owner product w
    → (1 ≤ len p) × (len p ≤ 64)
    → w.transfer.locks "transfer_product" ≡ false
    → transfer_product c owner p new_owner w ≡ (ok tt, transferred owner p new_owner product w)
unfolding transfer_product
transfer_product_succeeds c owner p new_owner product w h (named, short) free =
    let checked = transfer_checked_ok c owner p new_owner product w h named free in
    ground (
      arith, h.movable.stored, h.movable.owned, h.movable.active, h.signed, h.accepted, h.distinct,
      h.main, h.auth, checked,
    )
