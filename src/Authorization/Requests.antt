-- ===== src/Authorization/Requests.antt =====
-- Sequences of invocations of authorization.rs's entry points, by any callers.
use chain_logistics.Base.{String, List, [], ◌∷◌}
use chain_logistics.Host.Call.{Address, Ctx}
use chain_logistics.Authorization.State.{State}
use chain_logistics.Authorization.Handlers.{
  configure_initializer, init_product_owner, update_product_owner, add_authorized_actor,
  remove_authorized_actor,
}

pub data Request : Type 0 where
  configure : Address → Request
  register : Address → String → Address → Request
  hand_over : Address → String → Address → Request
  grant : Address → String → Address → Request
  revoke : Address → String → Address → Request

-- The state that a call leaves, also where it fails.
unfoldable pub step : Ctx → Request → State → State
step c (configure a) s = (configure_initializer a s).1
step c (register a p o) s = (init_product_owner c a p o s).1
step c (hand_over a p b) s = (update_product_owner c a p b s).1
step c (grant a p b) s = (add_authorized_actor c a p b s).1
step c (revoke a p b) s = (remove_authorized_actor c a p b s).1

unfoldable pub run : List (Ctx × Request) → State → State
run [] s = s
run ((c, r) ∷ rs) s = run rs (step c r s)
