-- ===== src/Quality/Takeover.antt =====
-- init_quality_control of quality_control.rs gives the control of a product to any caller.
use chain_logistics.Base.{
  ◌≡◌, ◌≢◌, refl, true, none, some, String, arith, Option-cases, str_eq, eq_iff, inl, inr,
}
use chain_logistics.Host.Errors.{Error}
use chain_logistics.Host.Call.{Address, Ctx, ok, err}
use chain_logistics.Quality.State.{State}
use chain_logistics.Quality.Handlers.{init_quality_control}
use chain_logistics.Quality.Queries.{authorize_sensor}

-- Whoever calls `init_quality_control` for a stored product, with its own authorisation, takes the
-- quality control of the product over: the administrator until then, if it is someone else, is refused
-- when it authorises a sensor, and the caller is not.
pub taken_over :
    (c d : Ctx) (a o : Address) (p : String) (s : State) (x : Address) (i k : String)
    → s.product p ≢ none
    → s.admin p ≡ some o
    → o ≢ a
    → c.authorized a ≡ true
    → d.authorized o ≡ true
    → d.authorized a ≡ true
    → let s' = (init_quality_control c a p s).1 in
      ((init_quality_control c a p s).0 ≡ ok tt)
      × ((authorize_sensor d o p x i k s).0 ≡ ok tt)
      × ((authorize_sensor d o p x i k s').0 ≡ err Error.unauthorized)
      × ((authorize_sensor d a p x i k s').0 ≡ ok tt)
unfolding init_quality_control authorize_sensor
taken_over c d a o p s x i k known e other ca do_ da =
    let own : str_eq p p ≡ true = (eq_iff p p).1 refl in
    elim (Option-cases (s.product p)) [
      | inl m ↦ absurd (known m)
      | inr (y, m) ↦ (
        ground (arith, m, ca),
        ground (arith, e, do_),
        ground (arith, m, ca, other, do_, own),
        ground (arith, m, ca, da, own),
      )
    ]
