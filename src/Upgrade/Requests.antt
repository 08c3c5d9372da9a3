-- ===== src/Upgrade/Requests.antt =====
-- Sequences of invocations of upgrade.rs's entry points, by any callers at any times.
use chain_logistics.Base.{Bool, List, [], ◌∷◌}
use chain_logistics.Host.Call.{Address, Symbol, Ctx}
use chain_logistics.Types.{ContractVersion}
use chain_logistics.Upgrade.State.{State}
use chain_logistics.Upgrade.Handlers.{
  set_multisig_contract, set_timelock_contract, initiate_upgrade, complete_upgrade, fail_upgrade,
  emergency_pause, emergency_unpause, reset_upgrade_status,
}

pub data Request : Type 0 where
  set_multisig : Address → Address → Request
  set_timelock : Address → Address → Request
  initiate : Address → ContractVersion → Address → Bool → Request
  complete : Address → Request
  give_up : Address → Symbol → Request
  pause : Address → Symbol → Request
  unpause : Address → Request
  reset : Address → Request

-- The state that a call leaves, also where it fails.
unfoldable pub step : Ctx → Request → State → State
step c (set_multisig a m) s = (set_multisig_contract c a m s).1
step c (set_timelock a t) s = (set_timelock_contract c a t s).1
step c (initiate a v n m) s = (initiate_upgrade c a v n m s).1
step c (complete a) s = (complete_upgrade c a s).1
step c (give_up a r) s = (fail_upgrade c a r s).1
step c (pause a r) s = (emergency_pause c a r s).1
step c (unpause a) s = (emergency_unpause c a s).1
step c (reset a) s = (reset_upgrade_status c a s).1

unfoldable pub run : List (Ctx × Request) → State → State
run [] s = s
run ((c, r) ∷ rs) s = run rs (step c r s)
