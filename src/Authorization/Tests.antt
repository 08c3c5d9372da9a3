-- ===== src/Authorization/Tests.antt =====
-- authorization.rs on concrete inputs.
use chain_logistics.Base.{ℕ, ◌≡◌, ◌≢◌, refl, true, false, some, List, [], ◌∷◌, arith}
use chain_logistics.Host.Errors.{Error}
use chain_logistics.Host.Call.{Ctx, ok, err}
use chain_logistics.Authorization.State.{State, empty}
use chain_logistics.Authorization.Handlers.{
  configure_initializer, init_product_owner, update_product_owner, add_authorized_actor,
  remove_authorized_actor, is_authorized,
}
use chain_logistics.Authorization.Requests.{Request, configure, register, grant, revoke, step, run}
use chain_logistics.Authorization.Rights.{IsAbout, right_changed_by_owner}

abbrev caller : Ctx
caller = record { timestamp = 1; current_contract_address = 9; authorized = λ _. true }

abbrev requests : List (Ctx × Request)
requests =
    (caller, configure 7)
    ∷ (caller, register 7 "PROD1" 1)
    ∷ (caller, grant 1 "PROD1" 2)
    ∷ (caller, register 8 "PROD2" 8)
    ∷ []

abbrev registered : State
registered = run requests empty

answers :
    (registered.owner "PROD1" ≡ some 1)
    × ((is_authorized "PROD1" 1 registered).0 ≡ ok true)
    × ((is_authorized "PROD1" 2 registered).0 ≡ ok true)
    × ((is_authorized "PROD1" 3 registered).0 ≡ ok false)
    × ((is_authorized "PROD2" 8 registered).0 ≡ err Error.product_not_found)
    × ((is_authorized "PROD1" 2 (step caller (revoke 1 "PROD1" 2) registered)).0 ≡ ok false)
    × ((update_product_owner caller 1 "PROD1" 3 registered).0 ≡ ok tt)
unfolding run step configure_initializer init_product_owner add_authorized_actor
    remove_authorized_actor update_product_owner is_authorized
answers = (refl, refl, refl, refl, refl, refl, refl)

revoked :
    (is_authorized "PROD1" 2 (step caller (revoke 1 "PROD1" 2) registered)).0
    ≢ (is_authorized "PROD1" 2 registered).0
revoked e = absurd (cc (e, answers.2, answers.5))

right_changed_by_owner_example :
    (caller.authorized 1 ≡ true) × IsAbout 1 "PROD1" 2 (revoke 1 "PROD1" 2)
right_changed_by_owner_example =
    right_changed_by_owner caller (revoke 1 "PROD1" 2) "PROD1" 2 1 registered answers.0 revoked

apart : ◌≢◌ {A = ℕ} 2 1
apart e = omega (arith, e)
