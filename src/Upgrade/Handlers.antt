-- ===== src/Upgrade/Handlers.antt =====
-- The entry points of upgrade.rs, with the helpers they share.
use chain_logistics.Base.{
  ℕ, ◌+◌, Bool, true, false, not, ◌&&◌, ◌||◌, Option, none, some, ltb, leb, ◌==◌, if◌then◌else◌,
}
use chain_logistics.Host.Errors.{Error}
use chain_logistics.Host.Call.{
  Address, Symbol, Ctx, Call, ok, err, trap, ◌>>=◌, ◌>>◌, fail_if, ok_or, gets, modify,
}
use chain_logistics.Types.{ContractVersion}
use chain_logistics.Upgrade.State.{
  UpgradeStatus, not_started, in_progress, completed, failed, upgrade_initiated, upgrade_completed,
  upgrade_failed, emergency_paused, emergency_unpaused, upgrade_reset, try_pause, try_unpause,
  State, get_contract_version, set_contract_version, set_upgrade_info, load_upgrade_status,
  set_upgrade_status, get_emergency_pause, set_emergency_pause, publish, call_main,
}

-- `if let Some(a) = .. { if &a == caller`
abbrev pub is_stored : Option Address → Address → Bool
is_stored none caller = false
is_stored (some a) caller = a == caller

-- Whether the call of `require_auth` returns: a contract needs none of its own.
abbrev pub may_act : Ctx → Address → Bool
may_act c caller = c.current_contract_address == caller || c.authorized caller

-- Who may act on the contract's behalf: the administrator, the multisig or the timelock.
unfoldable pub require_admin : Ctx → Address → Call State (Unit {0})
require_admin c caller s = elim s.admin [
  | none ↦ (err Error.not_initialized, s)
  | some admin ↦ (
    if admin == caller
        then (if c.authorized caller then ok tt else trap)
        else if is_stored s.multisig_contract caller || is_stored s.timelock_contract caller
        then (if may_act c caller then ok tt else trap)
        else err Error.unauthorized,
    s,
  )
]

abbrev pub require_not_emergency_paused : Call State (Unit {0})
require_not_emergency_paused = do fail_if (← gets get_emergency_pause) Error.emergency_paused

-- `a + b` on `u32`, with overflow checks on
abbrev pub add_u32 : ℕ → ℕ → Call State ℕ
add_u32 a b s = (if leb (a + b) 4294967295 then ok (a + b) else trap, s)

unfoldable pub validate_version_upgrade : ContractVersion → ContractVersion → Call State (Unit {0})
validate_version_upgrade old_version new_version = do
  fail_if (ltb new_version.major old_version.major) Error.invalid_upgrade
  fail_if (new_version.major == old_version.major && ltb new_version.minor old_version.minor)
      Error.invalid_upgrade
  fail_if
      (new_version.major == old_version.major
        && (new_version.minor == old_version.minor && leb new_version.patch old_version.patch))
      Error.invalid_upgrade
  next_major ← add_u32 old_version.major 1
  fail_if (ltb next_major new_version.major) Error.invalid_upgrade

abbrev pub is_in_progress : UpgradeStatus → Bool
is_in_progress in_progress = true
is_in_progress _ = false

unfoldable pub set_multisig_contract : Ctx → Address → Address → Call State (Unit {0})
unfolding require_admin
set_multisig_contract c caller multisig_contract = do
  require_admin c caller
  modify (λ s. record s { multisig_contract = some multisig_contract })

unfoldable pub set_timelock_contract : Ctx → Address → Address → Call State (Unit {0})
unfolding require_admin
set_timelock_contract c caller timelock_contract = do
  require_admin c caller
  modify (λ s. record s { timelock_contract = some timelock_contract })

unfoldable pub initiate_upgrade :
    Ctx → Address → ContractVersion → Address → Bool → Call State (Unit {0})
unfolding require_admin validate_version_upgrade
initiate_upgrade c caller new_version new_contract_address migration_required = do
  require_admin c caller
  require_not_emergency_paused
  current_version ← gets get_contract_version
  validate_version_upgrade current_version new_version
  status ← gets load_upgrade_status
  fail_if (is_in_progress status) Error.upgrade_in_progress
  modify (set_upgrade_status in_progress)
  modify (
      set_upgrade_info (record {
        new_version = new_version;
        new_contract_address = new_contract_address;
        upgrade_timestamp = c.timestamp;
        upgraded_by = caller;
        migration_required = migration_required;
      }))
  modify (publish (upgrade_initiated current_version new_version caller))

unfoldable pub complete_upgrade : Ctx → Address → Call State (Unit {0})
unfolding require_admin
complete_upgrade c caller = do
  require_admin c caller
  status ← gets load_upgrade_status
  fail_if (not (is_in_progress status)) Error.no_upgrade_in_progress
  info ← ok_or (← gets λ s. s.info) Error.not_initialized
  modify (set_contract_version info.new_version)
  modify (set_upgrade_status completed)
  modify (publish (upgrade_completed info.new_version info.new_contract_address caller))

unfoldable pub fail_upgrade : Ctx → Address → Symbol → Call State (Unit {0})
unfolding require_admin
fail_upgrade c caller reason = do
  require_admin c caller
  status ← gets load_upgrade_status
  fail_if (not (is_in_progress status)) Error.no_upgrade_in_progress
  modify (set_upgrade_status failed)
  modify (publish (upgrade_failed caller reason))

abbrev pub pause_main : Address → State → State
pause_main caller s = elim s.main_contract [
  | none ↦ s
  | some main ↦ call_main (try_pause main caller) s
]

abbrev pub unpause_main : Address → State → State
unpause_main caller s = elim s.main_contract [
  | none ↦ s
  | some main ↦ call_main (try_unpause main caller) s
]

unfoldable pub emergency_pause : Ctx → Address → Symbol → Call State (Unit {0})
unfolding require_admin
emergency_pause c caller reason = do
  require_admin c caller
  require_not_emergency_paused
  modify (set_emergency_pause true)
  modify (pause_main caller)
  modify (publish (emergency_paused caller reason))

unfoldable pub emergency_unpause : Ctx → Address → Call State (Unit {0})
unfolding require_admin
emergency_unpause c caller = do
  require_admin c caller
  fail_if (not (← gets get_emergency_pause)) Error.not_emergency_paused
  modify (set_emergency_pause false)
  modify (unpause_main caller)
  modify (publish (emergency_unpaused caller))

unfoldable pub reset_upgrade_status : Ctx → Address → Call State (Unit {0})
unfolding require_admin
reset_upgrade_status c caller = do
  require_admin c caller
  status ← gets load_upgrade_status
  fail_if (is_in_progress status) Error.upgrade_in_progress
  modify (λ s. record s { info = none })
  modify (set_upgrade_status not_started)
  modify (publish (upgrade_reset caller))
