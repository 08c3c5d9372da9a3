-- ===== src/Main/Requests.antt =====
-- Invocations of contract.rs, and who controls the contract.
use chain_logistics.Base.{ℕ, ◌≡◌, ◌⊎◌, true, Option, none, some, ◌==◌, ◌||◌}
use chain_logistics.Host.Call.{Address, Ctx, Call, committed}
use chain_logistics.Tracking.Requests.{NewEvent}
use chain_logistics.Main.State.{State}
use chain_logistics.Main.Handlers.{
  init, pause, unpause, transfer_admin, set_multisig_contract, set_timelock_contract,
  simulate_multisig_pause,
}
use chain_logistics.Main.Events.{AuthContract, add_tracking_event}

pub data Request : Type 0 where
  setup : Address → Address → Request
  stop : Address → Request
  go_on : Address → Request
  hand_over : Address → Address → Request
  set_multisig : Address → Address → Request
  set_timelock : Address → Address → Request
  simulate : Address → Request
  add_event : NewEvent → Request

abbrev pub add : AuthContract → Ctx → NewEvent → Call State ℕ
add auth c x =
    add_tracking_event auth c x.by x.product x.kind x.location x.data_hash x.note x.metadata

unfoldable pub step : AuthContract → Ctx → Request → State → State
step auth c (setup a b) s = committed (init c a b) s
step auth c (stop a) s = committed (pause c a) s
step auth c (go_on a) s = committed (unpause c a) s
step auth c (hand_over a b) s = committed (transfer_admin c a b) s
step auth c (set_multisig a b) s = committed (set_multisig_contract c a b) s
step auth c (set_timelock a b) s = committed (set_timelock_contract c a b) s
step auth c (simulate a) s = committed (simulate_multisig_pause c a) s
step auth c (add_event x) s = committed (add auth c x) s

-- Who asks, none where the request needs no controller.
abbrev pub controller_of : Request → Option Address
controller_of (setup a b) = none
controller_of (stop a) = some a
controller_of (go_on a) = some a
controller_of (hand_over a b) = some a
controller_of (set_multisig a b) = some a
controller_of (set_timelock a b) = some a
controller_of (simulate a) = some a
controller_of (add_event x) = none

-- The caller is the administrator, the multisig or the timelock, and has authorised the call, or is
-- the contract itself as one of the latter two.
abbrev pub IsController : Ctx → Address → State → Type 0
IsController c a s =
    ((s.admin ≡ some a) × (c.authorized a ≡ true))
    ⊎ (((s.multisig_contract ≡ some a) ⊎ (s.timelock_contract ≡ some a))
        × (((c.current_contract_address == a) || c.authorized a) ≡ true))

-- Administrator, pause, contracts and products are the same.
pub record SameControl (s s' : State) : Type 0 where
  pub admin : s'.admin ≡ s.admin
  pub paused : s'.paused ≡ s.paused
  pub auth_contract : s'.auth_contract ≡ s.auth_contract
  pub multisig_contract : s'.multisig_contract ≡ s.multisig_contract
  pub timelock_contract : s'.timelock_contract ≡ s.timelock_contract
  pub product : s'.product ≡ s.product
