-- ===== src/Authorization/Handlers.antt =====
-- The entry points of authorization.rs.
use chain_logistics.Base.{Bool, true, false, not, none, some, String, ◌==◌, if◌then◌else◌}
use chain_logistics.Host.Errors.{Error}
use chain_logistics.Host.Call.{
  Address, Ctx, Call, ok, err, ◌>>=◌, ◌>>◌, pure, fail_if, ok_or, gets, modify, require_auth,
  unwrap_or,
}
use chain_logistics.Authorization.State.{State, set_owner, set_authorized}

unfoldable pub configure_initializer : Address → Call State (Unit {0})
configure_initializer initializer s = elim s.initializer [
  | none ↦ (ok tt, record s { initializer = some initializer })
  | some existing ↦ (if existing == initializer then ok tt else err Error.already_initialized, s)
]

unfoldable pub init_product_owner : Ctx → Address → String → Address → Call State (Unit {0})
init_product_owner c caller product_id owner = do
  initializer ← ok_or (← gets λ s. s.initializer) Error.not_initialized
  require_auth c caller
  fail_if (not (caller == initializer)) Error.unauthorized
  fail_if (elim (← gets λ s. s.owner product_id) [ none ↦ false | some _ ↦ true ])
      Error.product_already_exists
  modify (set_owner product_id owner)

unfoldable pub update_product_owner : Ctx → Address → String → Address → Call State (Unit {0})
update_product_owner c old_owner product_id new_owner = do
  require_auth c old_owner
  owner ← ok_or (← gets λ s. s.owner product_id) Error.product_not_found
  fail_if (not (owner == old_owner)) Error.unauthorized
  modify (set_owner product_id new_owner)

unfoldable pub add_authorized_actor : Ctx → Address → String → Address → Call State (Unit {0})
add_authorized_actor c owner product_id actor = do
  require_auth c owner
  current_owner ← ok_or (← gets λ s. s.owner product_id) Error.product_not_found
  fail_if (not (current_owner == owner)) Error.unauthorized
  modify (set_authorized product_id actor (some true))

unfoldable pub remove_authorized_actor : Ctx → Address → String → Address → Call State (Unit {0})
remove_authorized_actor c owner product_id actor = do
  require_auth c owner
  current_owner ← ok_or (← gets λ s. s.owner product_id) Error.product_not_found
  fail_if (not (current_owner == owner)) Error.unauthorized
  modify (set_authorized product_id actor none)

unfoldable pub is_authorized : String → Address → Call State Bool
is_authorized product_id actor = do
  owner ← ok_or (← gets λ s. s.owner product_id) Error.product_not_found
  granted ← gets (λ s. unwrap_or (s.authorized product_id actor) false)
  pure (if owner == actor then true else granted)
