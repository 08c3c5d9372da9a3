-- ===== src/Products/Bypass.antt =====
-- An owner who calls authorization.rs without product_transfer.rs.
use chain_logistics.Base.{eq_iff, ◌≡◌, ◌≢◌, ◌∙◌, sym, ap, some, String, arith}
use chain_logistics.Host.Call.{Address, Ctx, ok}
use chain_logistics.Authorization.Handlers.{update_product_owner}
use chain_logistics.Products.State.{Product, World, auth_client}
use chain_logistics.Products.Transfer.{transfer_product}
use chain_logistics.Products.Ownership.{OwnershipInv}
use chain_logistics.Products.Moves.{transfer_product_sound}

update_effect :
    (c : Ctx) (owner new_owner : Address) (p : String) (w : World)
    → (auth_client (update_product_owner c owner p new_owner) w).0 ≡ ok tt
    → let w' = (auth_client (update_product_owner c owner p new_owner) w).1 in
      (w.auth.owner p ≡ some owner)
      × (w'.auth.owner p ≡ some new_owner)
      × (w'.registry ≡ w.registry)
unfolding update_product_owner
update_effect c owner new_owner p w h =
    (ground (arith, h), ground (arith, h, (eq_iff p p).1), ground (arith, h))

-- After the owner of a product has handed it over in the authorization contract directly, which it
-- allows, no transfer of the product by anyone to anyone succeeds: the registry has another owner.
pub bypassed_transfers_fail :
    (c : Ctx) (owner new_owner : Address) (p : String) (x : Product) (w : World)
    → OwnershipInv w
    → w.registry.product p ≡ some x
    → owner ≢ new_owner
    → (auth_client (update_product_owner c owner p new_owner) w).0 ≡ ok tt
    → (c' : Ctx) (from to : Address)
    → (transfer_product c' from p to (auth_client (update_product_owner c owner p new_owner) w).1).0
      ≢ ok tt
bypassed_transfers_fail c owner new_owner p x w inv e d h c' from to done =
    let (was, is, same) = update_effect c owner new_owner p w h in
    let w' = (auth_client (update_product_owner c owner p new_owner) w).1 in
    let (y, t, _) = transfer_product_sound c' from p to w' done in
    let k = inv p x e in
    let stored : w.registry.product p ≡ some y =
      sym (ap (λ r. r.product p) same) ∙ t.movable.stored in
    absurd (ground (arith, was, is, k.recorded, t.movable.recorded, t.movable.owned, stored, e))
