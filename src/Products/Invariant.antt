-- ===== src/Products/Invariant.antt =====
-- Every invocation keeps the agreement on owners (product_registry.rs, product_transfer.rs and
-- authorization.rs).
use chain_logistics.Base.{
  ℕ, ◌≤◌, ◌≡◌, ◌≢◌, refl, ap, ◌∙◌, sym, subst, some, String, List, [], ◌∷◌, arith, len, length,
}
use chain_logistics.Host.Call.{
  Address, Ctx, Call, Outcome, ok, committed-keeps, put_at, ◌>>=◌, ◌>>◌, pure, require_auth,
  bind_sound,
}
use chain_logistics.Types.{ProductConfig}
use chain_logistics.Validation.{validate_product_config, validate_product_config_ok}
use chain_logistics.Authorization.Handlers.{
  add_authorized_actor, remove_authorized_actor, configure_initializer, init_product_owner,
  update_product_owner,
}
use chain_logistics.Products.State.{Product, World, auth_client}
use chain_logistics.Products.Registry.{
  register_product, register_valid, new_product, deactivate_product, reactivate_product,
  configure_auth_contract, configure_transfer_contract, transfer_owner,
}
use chain_logistics.Products.Transfer.{
  BatchProgress, transfer_batch_chunk, pt_init, transfer_product, batch_transfer_products,
  batch_transfer_products_chunk,
}
use chain_logistics.Products.Ownership.{IsAgreed, Agree, OwnershipInv, Agree-move, Agree-rewrite}
use chain_logistics.Products.Writes.{batch-keeps, transfer-keeps}
use chain_logistics.Products.Requests.{
  Request, configure_auth, configure_transfer, set_up_transfer, set_initializer, register,
  deactivate, reactivate, transfer, transfer_batch, transfer_chunk, grant, revoke, hand_directly,
  own_directly, update_directly, step, run, IsIndirect, AllIndirect, deactivated, reactivated,
  deactivate_product_effect, reactivate_product_effect, register_valid_effect,
}

-- The same products and owners.
same-OwnershipInv :
    (w w' : World)
    → OwnershipInv w
    → w'.registry.product ≡ w.registry.product
    → w'.auth.owner ≡ w.auth.owner
    → OwnershipInv w'
same-OwnershipInv w w' h p o =
    subst (λ f. Agree f w'.auth.owner) (sym p) (subst (Agree w.registry.product) (sym o) h)

register_checked :
    (c : Ctx) (owner : Address) (config : ProductConfig) (w : World) {x : Product}
    → (register_product c owner config w).0 ≡ ok x
    → (1 ≤ len config.id) × (register_product c owner config w ≡ register_valid c owner config w)
unfolding register_product
register_checked c owner config w {x} h =
    let valid = validate_product_config config >> register_valid c owner config in
    let (_, _, same1) = bind_sound (require_auth c owner) (λ _. valid) w h in
    let h1 = sym (ap (λ z. z.0) same1) ∙ h in
    let (_, ok2, same2) =
      bind_sound (validate_product_config config) (λ _. register_valid c owner config) w h1 in
    let (accepted, limits) = validate_product_config_ok w config ok2 in
    (
      limits.id_some,
      same1
          ∙ same2
          ∙ ap (λ (z : Outcome (Unit {0}) × World). register_valid c owner config z.1) accepted,
    )

register-keeps :
    (c : Ctx) (owner : Address) (config : ProductConfig) (w : World) {x : Product}
    → OwnershipInv w
    → (register_product c owner config w).0 ≡ ok x
    → OwnershipInv (register_product c owner config w).1
register-keeps c owner config w h e =
    let (named, same) = register_checked c owner config w e in
    let (products, owners) =
      register_valid_effect c owner config w (sym (ap (λ z. z.0) same) ∙ e) in
    let k =
      Agree-move w.registry.product w.auth.owner config.id (new_product c owner config) h refl
        named in
    subst (λ (z : Outcome Product × World). OwnershipInv z.1) (sym same)
      (subst (λ f. Agree f (register_valid c owner config w).1.auth.owner) (sym products)
        (subst (Agree (put_at config.id (new_product c owner config) w.registry.product))
          (sym owners) k))

rewritten-OwnershipInv :
    (p : String) (x x' : Product) (w w' : World)
    → OwnershipInv w
    → w.registry.product p ≡ some x
    → x'.id ≡ x.id
    → x'.owner ≡ x.owner
    → w'.registry.product ≡ put_at x'.id x' w.registry.product
    → w'.auth ≡ w.auth
    → OwnershipInv w'
rewritten-OwnershipInv p x x' w w' h e same_id same_owner products auth =
    let k = h p x e in
    let a : IsAgreed w.auth.owner p x' = record {
      keyed = same_id ∙ k.keyed;
      named = k.named;
      recorded = k.recorded ∙ ap some (sym same_owner);
    } in
    subst (λ f. Agree f w'.auth.owner) (sym products)
      (subst (λ s. Agree (put_at x'.id x' w.registry.product) s.owner) (sym auth)
        (Agree-rewrite w.registry.product w.auth.owner p x' h a))

deactivate-keeps :
    (c : Ctx) (owner : Address) (p reason : String) (w : World)
    → OwnershipInv w
    → (deactivate_product c owner p reason w).0 ≡ ok tt
    → OwnershipInv (deactivate_product c owner p reason w).1
deactivate-keeps c owner p reason w h e =
    let (x, stored, products, auth) = deactivate_product_effect c owner p reason w e in
    rewritten-OwnershipInv p x (deactivated c owner reason x) w
      (deactivate_product c owner p reason w).1 h stored refl refl products auth

reactivate-keeps :
    (c : Ctx) (owner : Address) (p : String) (w : World)
    → OwnershipInv w
    → (reactivate_product c owner p w).0 ≡ ok tt
    → OwnershipInv (reactivate_product c owner p w).1
reactivate-keeps c owner p w h e =
    let (x, stored, products, auth) = reactivate_product_effect c owner p w e in
    rewritten-OwnershipInv p x (reactivated x) w (reactivate_product c owner p w).1 h stored refl
      refl products auth

chunk-keeps :
    (c : Ctx) (owner new_owner : Address) (ids : List String) (cursor size : ℕ) (w : World)
    {progress : BatchProgress}
    → OwnershipInv w
    → (batch_transfer_products_chunk c owner ids new_owner cursor size w).0 ≡ ok progress
    → OwnershipInv (batch_transfer_products_chunk c owner ids new_owner cursor size w).1
unfolding batch_transfer_products_chunk
chunk-keeps c owner new_owner ids cursor size w h e =
    let batch = transfer_batch_chunk c owner ids new_owner cursor size in
    let same : batch_transfer_products_chunk c owner ids new_owner cursor size w ≡ batch w =
      ground (arith, e) in
    subst (λ (z : Outcome BatchProgress × World). OwnershipInv z.1) (sym same)
      (batch-keeps c owner new_owner ids cursor size w h (sym (ap (λ z. z.0) same) ∙ e))

whole_batch-keeps :
    (c : Ctx) (owner new_owner : Address) (ids : List String) (w : World) {n : ℕ}
    → OwnershipInv w
    → (batch_transfer_products c owner ids new_owner w).0 ≡ ok n
    → OwnershipInv (batch_transfer_products c owner ids new_owner w).1
unfolding batch_transfer_products
whole_batch-keeps c owner new_owner ids w h e =
    let batch = transfer_batch_chunk c owner ids new_owner 0 (length ids) in
    let count : BatchProgress → Call World ℕ = λ progress. pure progress.succeeded in
    let same : batch_transfer_products c owner ids new_owner w ≡ (batch >>= count) w =
      ground (arith, e) in
    let (_, done, last) = bind_sound batch count w (sym (ap (λ z. z.0) same) ∙ e) in
    subst (λ (z : Outcome ℕ × World). OwnershipInv z.1) (sym (same ∙ last))
      (batch-keeps c owner new_owner ids 0 (length ids) w h done)

configure-keeps :
    (c : Ctx) (a t : Address) (w : World)
    → OwnershipInv w
    → OwnershipInv (configure_auth_contract c a w).1
      × OwnershipInv (configure_transfer_contract c t w).1
      × OwnershipInv (pt_init c t a w).1
      × OwnershipInv (auth_client (configure_initializer a) w).1
unfolding configure_auth_contract configure_transfer_contract pt_init configure_initializer
configure-keeps c a t w h = (
  same-OwnershipInv w (configure_auth_contract c a w).1 h (ground arith) (ground arith),
  same-OwnershipInv w (configure_transfer_contract c t w).1 h (ground arith) (ground arith),
  same-OwnershipInv w (pt_init c t a w).1 h (ground arith) (ground arith),
  same-OwnershipInv w (auth_client (configure_initializer a) w).1 h (ground arith) (ground arith),
)

rights-keep :
    (c : Ctx) (owner actor : Address) (p : String) (w : World)
    → OwnershipInv w
    → OwnershipInv (auth_client (add_authorized_actor c owner p actor) w).1
      × OwnershipInv (auth_client (remove_authorized_actor c owner p actor) w).1
unfolding add_authorized_actor remove_authorized_actor
rights-keep c owner actor p w h = (
  same-OwnershipInv w (auth_client (add_authorized_actor c owner p actor) w).1 h (ground arith)
      (ground arith),
  same-OwnershipInv w (auth_client (remove_authorized_actor c owner p actor) w).1 h (ground arith)
      (ground arith),
)

-- Whoever else asks for a direct write of an owner is refused.
hand_fails :
    (c : Ctx) (a b : Address) (p : String) (x : Product) (w : World)
    → w.registry.transfer_contract ≢ some a
    → (transfer_owner c a p b w).0 ≢ ok x
unfolding transfer_owner
hand_fails c a b p x w n h = ground (arith, n, h)

own_fails :
    (c : Ctx) (a b : Address) (p : String) (w : World)
    → (w.auth.initializer ≢ some a → (auth_client (init_product_owner c a p b) w).0 ≢ ok tt)
      × (w.auth.owner p ≢ some a → (auth_client (update_product_owner c a p b) w).0 ≢ ok tt)
unfolding init_product_owner update_product_owner
own_fails c a b p w = (λ n h. ground (arith, n, h), λ n h. ground (arith, n, h))

-- Every invocation of an entry point of the registry, the transfer contract or the authorization
-- contract, by whomever and when, that is not a direct write of an owner by the one address that may
-- make it (the registry's transfer contract by transfer_owner, the initializer by init_product_owner,
-- the product's owner by update_product_owner) keeps: each stored product keeps its number, which is
-- not empty, and the authorization contract has the owner that the registry has.
pub step-OwnershipInv :
    (c : Ctx) (r : Request) (w : World)
    → IsIndirect r w
    → OwnershipInv w
    → OwnershipInv (step c r w)
unfolding step
step-OwnershipInv c (configure_auth a) w d h =
    committed-keeps OwnershipInv (configure_auth_contract c a) w h
      (λ _ _. (configure-keeps c a a w h).0)
step-OwnershipInv c (configure_transfer t) w d h =
    committed-keeps OwnershipInv (configure_transfer_contract c t) w h
      (λ _ _. (configure-keeps c t t w h).1)
step-OwnershipInv c (set_up_transfer m a) w d h =
    committed-keeps OwnershipInv (pt_init c m a) w h (λ _ _. (configure-keeps c a m w h).2)
step-OwnershipInv c (set_initializer a) w d h =
    committed-keeps OwnershipInv (auth_client (configure_initializer a)) w h
      (λ _ _. (configure-keeps c a a w h).3)
step-OwnershipInv c (register owner config) w d h =
    committed-keeps OwnershipInv (register_product c owner config) w h
      (λ _ e. register-keeps c owner config w h e)
step-OwnershipInv c (deactivate owner p reason) w d h =
    committed-keeps OwnershipInv (deactivate_product c owner p reason) w h
      (λ _ e. deactivate-keeps c owner p reason w h e)
step-OwnershipInv c (reactivate owner p) w d h =
    committed-keeps OwnershipInv (reactivate_product c owner p) w h
      (λ _ e. reactivate-keeps c owner p w h e)
step-OwnershipInv c (transfer owner p new_owner) w d h =
    committed-keeps OwnershipInv (transfer_product c owner p new_owner) w h
      (λ _ e. transfer-keeps c owner p new_owner w h e)
step-OwnershipInv c (transfer_batch owner ps new_owner) w d h =
    committed-keeps OwnershipInv (batch_transfer_products c owner ps new_owner) w h
      (λ _ e. whole_batch-keeps c owner new_owner ps w h e)
step-OwnershipInv c (transfer_chunk owner ps new_owner cursor size) w d h =
    committed-keeps OwnershipInv (batch_transfer_products_chunk c owner ps new_owner cursor size) w
      h (λ _ e. chunk-keeps c owner new_owner ps cursor size w h e)
step-OwnershipInv c (grant owner p actor) w d h =
    committed-keeps OwnershipInv (auth_client (add_authorized_actor c owner p actor)) w h
      (λ _ _. (rights-keep c owner actor p w h).0)
step-OwnershipInv c (revoke owner p actor) w d h =
    committed-keeps OwnershipInv (auth_client (remove_authorized_actor c owner p actor)) w h
      (λ _ _. (rights-keep c owner actor p w h).1)
step-OwnershipInv c (hand_directly a p b) w d h =
    committed-keeps OwnershipInv (transfer_owner c a p b) w h
      (λ x e. absurd (hand_fails c a b p x w d e))
step-OwnershipInv c (own_directly a p b) w d h =
    committed-keeps OwnershipInv (auth_client (init_product_owner c a p b)) w h
      (λ _ e. absurd ((own_fails c a b p w).0 d e))
step-OwnershipInv c (update_directly a p b) w d h =
    committed-keeps OwnershipInv (auth_client (update_product_owner c a p b)) w h
      (λ _ e. absurd ((own_fails c a b p w).1 d e))

pub run-OwnershipInv :
    (rs : List (Ctx × Request)) (w : World)
    → AllIndirect rs w
    → OwnershipInv w
    → OwnershipInv (run rs w)
unfolding run
run-OwnershipInv [] w d h = h
run-OwnershipInv ((c, r) ∷ rs) w (d, ds) h =
    run-OwnershipInv rs (step c r w) ds (step-OwnershipInv c r w d h)
