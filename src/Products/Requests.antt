-- ===== src/Products/Requests.antt =====
-- Invocations of the three contracts, and what a successful one leaves of products and owners.
use chain_logistics.Base.{
  ℕ, ◌≡◌, ◌≢◌, inl, inr, true, false, some, String, List, [], ◌∷◌, arith, str_eq, if◌then◌else◌,
  Option-cases,
}
use chain_logistics.Host.Call.{Address, Ctx, ok, committed, put_at}
use chain_logistics.Types.{ProductConfig}
use chain_logistics.Authorization.Handlers.{
  add_authorized_actor, remove_authorized_actor, init_product_owner, update_product_owner,
  configure_initializer,
}
use chain_logistics.Products.State.{Product, World, auth_client}
use chain_logistics.Products.Registry.{
  register_product, register_valid, new_product, deactivate_product, reactivate_product,
  configure_auth_contract, configure_transfer_contract, transfer_owner,
}
use chain_logistics.Products.Transfer.{
  pt_init, transfer_product, batch_transfer_products, batch_transfer_products_chunk,
}

-- An invocation of any entry point of the three contracts that writes. The last three write an
-- owner in one contract alone; in the suite another contract calls them.
pub data Request : Type 0 where
  configure_auth : Address → Request
  configure_transfer : Address → Request
  set_up_transfer : Address → Address → Request
  set_initializer : Address → Request
  register : Address → ProductConfig → Request
  deactivate : Address → String → String → Request
  reactivate : Address → String → Request
  transfer : Address → String → Address → Request
  transfer_batch : Address → List String → Address → Request
  transfer_chunk : Address → List String → Address → ℕ → ℕ → Request
  grant : Address → String → Address → Request
  revoke : Address → String → Address → Request
  hand_directly : Address → String → Address → Request
  own_directly : Address → String → Address → Request
  update_directly : Address → String → Address → Request

unfoldable pub step : Ctx → Request → World → World
step c (configure_auth a) w = committed (configure_auth_contract c a) w
step c (configure_transfer t) w = committed (configure_transfer_contract c t) w
step c (set_up_transfer m a) w = committed (pt_init c m a) w
step c (set_initializer a) w = committed (auth_client (configure_initializer a)) w
step c (register owner config) w = committed (register_product c owner config) w
step c (deactivate owner p reason) w = committed (deactivate_product c owner p reason) w
step c (reactivate owner p) w = committed (reactivate_product c owner p) w
step c (transfer owner p new_owner) w = committed (transfer_product c owner p new_owner) w
step c (transfer_batch owner ps new_owner) w =
    committed (batch_transfer_products c owner ps new_owner) w
step c (transfer_chunk owner ps new_owner cursor size) w =
    committed (batch_transfer_products_chunk c owner ps new_owner cursor size) w
step c (grant owner p actor) w = committed (auth_client (add_authorized_actor c owner p actor)) w
step c (revoke owner p actor) w =
    committed (auth_client (remove_authorized_actor c owner p actor)) w
step c (hand_directly caller p new_owner) w = committed (transfer_owner c caller p new_owner) w
step c (own_directly caller p owner) w =
    committed (auth_client (init_product_owner c caller p owner)) w
step c (update_directly old_owner p new_owner) w =
    committed (auth_client (update_product_owner c old_owner p new_owner)) w

-- The invocation is no direct write of an owner by the one address that the contract lets do so: the
-- registry's transfer contract, the initializer, or the product's owner as the authorization
-- contract has it.
abbrev pub IsIndirect : Request → World → Type 0
IsIndirect (hand_directly caller p new_owner) w = w.registry.transfer_contract ≢ some caller
IsIndirect (own_directly caller p owner) w = w.auth.initializer ≢ some caller
IsIndirect (update_directly old_owner p new_owner) w = w.auth.owner p ≢ some old_owner
IsIndirect _ w = Unit

unfoldable pub run : List (Ctx × Request) → World → World
run [] w = w
run ((c, r) ∷ rs) w = run rs (step c r w)

abbrev pub AllIndirect : List (Ctx × Request) → World → Type 0
AllIndirect [] w = Unit
AllIndirect ((c, r) ∷ rs) w = IsIndirect r w × AllIndirect rs (step c r w)

-- The product as it is after its deactivation.
abbrev pub deactivated : Ctx → Address → String → Product → Product
deactivated c owner reason x = record x {
  active = false;
  deactivation_info =
      record { reason = reason; deactivated_at = c.timestamp; deactivated_by = owner } ∷ [];
}

abbrev pub reactivated : Product → Product
reactivated x = record x { active = true; deactivation_info = [] }

pub deactivate_product_effect :
    (c : Ctx) (owner : Address) (p reason : String) (w : World)
    → (deactivate_product c owner p reason w).0 ≡ ok tt
    → (x : Product) × (w.registry.product p ≡ some x)
      × ((deactivate_product c owner p reason w).1.registry.product
          ≡ put_at x.id (deactivated c owner reason x) w.registry.product)
      × ((deactivate_product c owner p reason w).1.auth ≡ w.auth)
unfolding deactivate_product
deactivate_product_effect c owner p reason w h = elim (Option-cases (w.registry.product p)) [
  | inl e ↦ absurd (ground (arith, e, h))
  | inr (x, e) ↦ (x, e, ground (arith, e, h), ground (arith, e, h))
]

pub reactivate_product_effect :
    (c : Ctx) (owner : Address) (p : String) (w : World)
    → (reactivate_product c owner p w).0 ≡ ok tt
    → (x : Product) × (w.registry.product p ≡ some x)
      × ((reactivate_product c owner p w).1.registry.product
          ≡ put_at x.id (reactivated x) w.registry.product)
      × ((reactivate_product c owner p w).1.auth ≡ w.auth)
unfolding reactivate_product
reactivate_product_effect c owner p w h = elim (Option-cases (w.registry.product p)) [
  | inl e ↦ absurd (ground (arith, e, h))
  | inr (x, e) ↦ (x, e, ground (arith, e, h), ground (arith, e, h))
]

pub register_valid_effect :
    (c : Ctx) (owner : Address) (config : ProductConfig) (w : World) {x : Product}
    → (register_valid c owner config w).0 ≡ ok x
    → ((register_valid c owner config w).1.registry.product
        ≡ put_at config.id (new_product c owner config) w.registry.product)
      × ((register_valid c owner config w).1.auth.owner
          ≡ (λ q. if str_eq config.id q then some owner else w.auth.owner q))
unfolding register_valid init_product_owner
register_valid_effect c owner config w h = ground arith
