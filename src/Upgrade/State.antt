-- ===== src/Upgrade/State.antt =====
-- The storage of upgrade.rs, and the types of types.rs and events.rs that it holds.
use chain_logistics.Base.{ℕ, Bool, false, Option, some, List, ◌∷◌}
use chain_logistics.Host.Call.{Address, Symbol, unwrap_or}
use chain_logistics.Types.{ContractVersion}

pub record UpgradeInfo : Type 0 where
  pub new_version : ContractVersion
  pub new_contract_address : Address
  pub upgrade_timestamp : ℕ
  pub upgraded_by : Address
  pub migration_required : Bool

pub data UpgradeStatus : Type 0 where
  not_started in_progress completed failed : UpgradeStatus

pub data UpgradeEvent : Type 0 where
  upgrade_initiated : ContractVersion → ContractVersion → Address → UpgradeEvent
  upgrade_completed : ContractVersion → Address → Address → UpgradeEvent
  upgrade_failed : Address → Symbol → UpgradeEvent
  emergency_paused : Address → Symbol → UpgradeEvent
  emergency_unpaused : Address → UpgradeEvent
  upgrade_reset : Address → UpgradeEvent

-- A `try_` call of the main contract, whose outcome is dropped.
pub data MainCall : Type 0 where
  try_pause : Address → Address → MainCall
  try_unpause : Address → Address → MainCall

pub record State : Type 0 where
  pub version : Option ContractVersion
  pub info : Option UpgradeInfo
  pub status : Option UpgradeStatus
  pub paused : Option Bool
  pub admin : Option Address
  pub main_contract : Option Address
  pub multisig_contract : Option Address
  pub timelock_contract : Option Address
  pub main_calls : List MainCall
  pub events : List UpgradeEvent

abbrev pub first_version : ContractVersion
first_version = record { major = 1; minor = 0; patch = 0 }

abbrev pub get_contract_version : State → ContractVersion
get_contract_version s = unwrap_or s.version first_version

abbrev pub set_contract_version : ContractVersion → State → State
set_contract_version v s = record s { version = some v }

abbrev pub set_upgrade_info : UpgradeInfo → State → State
set_upgrade_info info s = record s { info = some info }

abbrev pub load_upgrade_status : State → UpgradeStatus
load_upgrade_status s = unwrap_or s.status not_started

abbrev pub set_upgrade_status : UpgradeStatus → State → State
set_upgrade_status status s = record s { status = some status }

abbrev pub get_emergency_pause : State → Bool
get_emergency_pause s = unwrap_or s.paused false

abbrev pub set_emergency_pause : Bool → State → State
set_emergency_pause b s = record s { paused = some b }

abbrev pub publish : UpgradeEvent → State → State
publish e s = record s { events = e ∷ s.events }

abbrev pub call_main : MainCall → State → State
call_main m s = record s { main_calls = m ∷ s.main_calls }
