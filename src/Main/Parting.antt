-- ===== src/Main/Parting.antt =====
-- What becomes of admin.rs when the main contract gets another administrator directly.
use chain_logistics.Base.{
  ◌≡◌, ◌≢◌, refl, ap, ◌∙◌, inl, inr, some, List, [], ◌∷◌, arith, Option-cases,
}
use chain_logistics.Host.Call.{Address, Ctx, Call, ok, committed, committed-keeps}
use chain_logistics.Products.State.{called}
use chain_logistics.Main.State as Main
use chain_logistics.Main.Handlers as MainContract
use chain_logistics.Main.Requests.{IsController}
use chain_logistics.Main.Control.{require_admin_sound}
use chain_logistics.Main.Admin.{World, admin_init, pause, unpause, transfer_admin}
use chain_logistics.Main.Administration.{hand_over_ok, transfer_admin_sound}

pub data AdminRequest : Type 0 where
  setup : Address → Address → AdminRequest
  stop : Address → AdminRequest
  go_on : Address → AdminRequest
  hand_over : Address → Address → AdminRequest

unfoldable pub step : Ctx → AdminRequest → World → World
step c (setup a m) w = committed (admin_init c a m) w
step c (stop a) w = committed (pause c a) w
step c (go_on a) w = committed (unpause c a) w
step c (hand_over a b) w = committed (transfer_admin c a b) w

unfoldable pub run : List (Ctx × AdminRequest) → World → World
run [] w = w
run ((c, r) ∷ rs) w = run rs (step c r w)

-- The administrator here is nobody in the main contract.
pub record IsParted (w : World) : Type 0 where
  pub own : Address
  pub known : w.admin ≡ some own
  pub not_admin : w.main.admin ≢ some own
  pub not_multisig : w.main.multisig_contract ≢ some own
  pub not_timelock : w.main.timelock_contract ≢ some own

not_admitted :
    (c : Ctx) (a : Address) (w : World) → IsParted w → w.admin ≡ some a → ¬ IsController c a w.main
not_admitted c a w p e (inl (k, _)) = p.not_admin (ground (arith, p.known, e, k))
not_admitted c a w p e (inr (inl k, _)) = p.not_multisig (ground (arith, p.known, e, k))
not_admitted c a w p e (inr (inr k, _)) = p.not_timelock (ground (arith, p.known, e, k))

pause_asks :
    (c : Ctx) (a : Address) (w : World)
    → (pause c a w).0 ≡ ok tt
    → (m : Address) × (w.admin ≡ some a)
      × ((MainContract.require_admin (called c m) a w.main).0 ≡ ok tt)
unfolding pause MainContract.pause
pause_asks c a w h = elim (Option-cases w.main_contract) [
  | inl e ↦ absurd (ground (arith, e, h))
  | inr (m, e) ↦ (m, ground (arith, h), ground (arith, e, h))
]

unpause_asks :
    (c : Ctx) (a : Address) (w : World)
    → (unpause c a w).0 ≡ ok tt
    → (m : Address) × (w.admin ≡ some a)
      × ((MainContract.require_admin (called c m) a w.main).0 ≡ ok tt)
unfolding unpause MainContract.unpause
unpause_asks c a w h = elim (Option-cases w.main_contract) [
  | inl e ↦ absurd (ground (arith, e, h))
  | inr (m, e) ↦ (m, ground (arith, h), ground (arith, e, h))
]

setup_fails : (c : Ctx) (a m : Address) (w : World) → IsParted w → (admin_init c a m w).0 ≢ ok tt
unfolding admin_init
setup_fails c a m w p h = ground (arith, p.known, h)

fails : (m : Call World (Unit {0})) (w : World) → (m w).0 ≢ ok tt → committed m w ≡ w
fails m w n = committed-keeps (λ v. v ≡ w) m w refl (λ u h. absurd (n h))

step_stuck : (c : Ctx) (r : AdminRequest) (w : World) → IsParted w → step c r w ≡ w
unfolding step
step_stuck c (setup a m) w p = fails (admin_init c a m) w (setup_fails c a m w p)
step_stuck c (stop a) w p = fails (pause c a) w λ h.
    let (m, e, k) = pause_asks c a w h in
    not_admitted (called c m) a w p e (require_admin_sound (called c m) a w.main k)
step_stuck c (go_on a) w p = fails (unpause c a) w λ h.
    let (m, e, k) = unpause_asks c a w h in
    not_admitted (called c m) a w p e (require_admin_sound (called c m) a w.main k)
step_stuck c (hand_over a b) w p = fails (transfer_admin c a b) w λ h.
    let (k, _, _) = transfer_admin_sound c a b w h in
    not_admitted (called c k.main_contract) a w p k.own k.controller

run_stuck : (rs : List (Ctx × AdminRequest)) (w : World) → IsParted w → run rs w ≡ w
unfolding run
run_stuck [] w p = refl
run_stuck ((c, r) ∷ rs) w p = ap (run rs) (step_stuck c r w p) ∙ run_stuck rs w p

moved_apart :
    (d : Ctx) (a b : Address) (s : Main.State)
    → (MainContract.transfer_admin d a b s).0 ≡ ok tt
    → b ≢ a
unfolding MainContract.transfer_admin
moved_apart d a b s h = ground (arith, h)

-- Where both contracts have the same administrator, who is not also the main contract's multisig or
-- timelock, a direct hand-over in the main contract leaves the administration contract behind: no
-- sequence of requests to it, by any callers, changes anything in either contract.
pub direct_transfer_parts :
    (d : Ctx) (a b : Address) (w : World) (rs : List (Ctx × AdminRequest))
    → w.admin ≡ some a
    → w.main.multisig_contract ≢ some a
    → w.main.timelock_contract ≢ some a
    → (MainContract.transfer_admin d a b w.main).0 ≡ ok tt
    → let w' : World = record w { main = (MainContract.transfer_admin d a b w.main).1 } in
      (w'.main.admin ≡ some b) × (run rs w' ≡ w')
direct_transfer_parts d a b w rs e m t h =
    let (_, moved) = hand_over_ok d a b w.main h in
    let apart = moved_apart d a b w.main h in
    let same = ap (λ z. z.1) moved in
    let w' : World = record w { main = (MainContract.transfer_admin d a b w.main).1 } in
    let p : IsParted w' = record {
      own = a;
      known = e;
      not_admin = λ k. apart (ground (arith, k, same));
      not_multisig = λ k. m (ground (arith, k, same));
      not_timelock = λ k. t (ground (arith, k, same));
    } in
    (ap (λ (s : Main.State). s.admin) same, run_stuck rs w' p)
