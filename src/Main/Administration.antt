-- ===== src/Main/Administration.antt =====
-- What admin.rs achieves in the main contract, and when it cannot.
use chain_logistics.Base.{◌≡◌, inl, inr, true, some, ◌∷◌, arith, Option-cases}
use chain_logistics.Host.Call.{Address, Ctx, ok}
use chain_logistics.Products.State.{called}
use chain_logistics.Main.State as Main
use chain_logistics.Main.Handlers as MainContract
use chain_logistics.Main.Requests.{IsController}
use chain_logistics.Main.Control.{require_admin_sound, require_admin_state}
use chain_logistics.Main.Admin.{World, admin_transferred, transfer_admin}

-- The caller is the administrator here and controls the main contract, and has authorised the call.
pub record Administers (c : Ctx) (a : Address) (w : World) : Type 0 where
  pub own : w.admin ≡ some a
  pub authorized : c.authorized a ≡ true
  pub main_contract : Address
  pub configured : w.main_contract ≡ some main_contract
  pub controller : IsController (called c main_contract) a w.main

pub hand_over_ok :
    (c : Ctx) (a b : Address) (s : Main.State)
    → (MainContract.transfer_admin c a b s).0 ≡ ok tt
    → ((MainContract.require_admin c a s).0 ≡ ok tt)
      × (MainContract.transfer_admin c a b s ≡ (ok tt, record s { admin = some b }))
unfolding MainContract.transfer_admin
hand_over_ok c a b s h = (ground (arith, h), ground (arith, h, require_admin_state c a s))

-- If the administration contract hands over, the caller was its administrator and controls the main
-- contract, both addresses have authorised it, and both contracts have the new administrator, with
-- nothing else changed in the main contract.
pub transfer_admin_sound :
    (c : Ctx) (a b : Address) (w : World)
    → (transfer_admin c a b w).0 ≡ ok tt
    → Administers c a w
      × (c.authorized b ≡ true)
      × ((transfer_admin c a b w).1 ≡ record w {
        admin = some b;
        main = record w.main { admin = some b };
        log = admin_transferred a b ∷ w.log;
      })
unfolding transfer_admin
transfer_admin_sound c a b w h = elim (Option-cases w.main_contract) [
  | inl e ↦ absurd (ground (arith, e, h))
  | inr (m, e) ↦
      let inner : (MainContract.transfer_admin (called c m) a b w.main).0 ≡ ok tt =
        ground (arith, e, h) in
      let (asked, moved) = hand_over_ok (called c m) a b w.main inner in
      let own : w.admin ≡ some a = ground (arith, h) in
      let auth : c.authorized a ≡ true = ground (arith, h) in
      (
        record {
          own = own;
          authorized = auth;
          main_contract = m;
          configured = e;
          controller = require_admin_sound (called c m) a w.main asked;
        },
        ground (arith, h),
        ground (arith, e, h, moved, own, auth),
      )
]
