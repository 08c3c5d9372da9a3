-- ===== src/Upgrade/Tests.antt =====
-- upgrade.rs on concrete inputs.
use chain_logistics.Base.{ℕ, ◌≡◌, refl, true, false, some, none, List, [], ◌∷◌}
use chain_logistics.Host.Errors.{Error}
use chain_logistics.Host.Call.{Ctx, ok, err}
use chain_logistics.Types.{ContractVersion}
use chain_logistics.Upgrade.State.{State, first_version}
use chain_logistics.Upgrade.Handlers.{
  require_admin, validate_version_upgrade, initiate_upgrade, emergency_pause,
}
use chain_logistics.Upgrade.Requests.{Request, initiate, complete}
use chain_logistics.Upgrade.Versions.{UpgradeInv}
use chain_logistics.Upgrade.Safety.{Starts, initiate_upgrade_sound}

abbrev moment : ℕ → Ctx
moment t = record { timestamp = t; current_contract_address = 9; authorized = λ _. true }

-- As it is deployed: an administrator is set, and nothing else.
abbrev deployed : State
deployed = record {
  version = none;
  info = none;
  status = none;
  paused = none;
  admin = some 5;
  main_contract = none;
  multisig_contract = none;
  timelock_contract = some 6;
  main_calls = [];
  events = [];
}

abbrev two : ContractVersion
two = record { major = 2; minor = 0; patch = 0 }

deployed-UpgradeInv : UpgradeInv deployed
deployed-UpgradeInv e = absurd (cc)

starts :
    ((initiate_upgrade (moment 10) 6 two 8 false deployed).0 ≡ ok tt)
    × ((initiate_upgrade (moment 10) 6 first_version 8 false deployed).0
        ≡ err Error.invalid_upgrade)
    × ((initiate_upgrade (moment 10) 7 two 8 false deployed).0 ≡ err Error.unauthorized)
    × ((initiate_upgrade
          (moment 10)
          6
          two
          8
          false
          (emergency_pause (moment 9) 5 "breach" deployed).1).0
        ≡ err Error.emergency_paused)
unfolding initiate_upgrade emergency_pause require_admin validate_version_upgrade
starts = (refl, refl, refl, refl)

initiate_upgrade_sound_example :
    Starts
      (moment 10)
      6
      two
      8
      false
      deployed
      (initiate_upgrade (moment 10) 6 two 8 false deployed).1
initiate_upgrade_sound_example = initiate_upgrade_sound (moment 10) 6 two 8 false deployed starts.0

abbrev requests : List (Ctx × Request)
requests = (moment 10, initiate 6 two 8 false) ∷ (moment 20, complete 5) ∷ []
