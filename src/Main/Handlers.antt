-- ===== src/Main/Handlers.antt =====
-- The administration of contract.rs: its set-up, its pause, its administrator and the contracts that
-- act for it.
use chain_logistics.Base.{Bool, true, false, not, Option, none, some, ◌==◌, if◌then◌else◌}
use chain_logistics.Host.Errors.{Error}
use chain_logistics.Host.Call.{
  Address, Ctx, Call, ◌>>=◌, ◌>>◌, pure, fail, fail_if, ok_or, gets, modify, require_auth,
}
use chain_logistics.Validation.{validate_contract_address, validate_distinct_addresses}
use chain_logistics.Main.State as Main
use chain_logistics.Main.State.{State, is_paused, set_admin, set_paused, set_auth_contract}

abbrev pub require_not_paused : Call State (Unit {0})
require_not_paused = do fail_if (← gets is_paused) Error.contract_paused

-- `if let Some(a) = .. { if &a == caller`
abbrev pub is_stored : Option Address → Address → Bool
is_stored stored caller = elim stored [ none ↦ false | some a ↦ a == caller ]

-- `if env.current_contract_address() != caller { caller.require_auth(); }`
abbrev pub require_auth_unless_self : Ctx → Address → Call State (Unit {0})
require_auth_unless_self c caller =
    if not (c.current_contract_address == caller) then require_auth c caller else pure tt

unfoldable pub require_admin : Ctx → Address → Call State (Unit {0})
require_admin c caller = do
  admin ← ok_or (← gets λ s. s.admin) Error.not_initialized
  multisig ← gets (λ s. s.multisig_contract)
  timelock ← gets (λ s. s.timelock_contract)
  if admin == caller
      then require_auth c caller
      else if is_stored multisig caller
      then require_auth_unless_self c caller
      else if is_stored timelock caller
      then require_auth_unless_self c caller
      else fail Error.unauthorized

unfoldable pub init : Ctx → Address → Address → Call State (Unit {0})
init c admin auth_contract = do
  fail_if (elim (← gets λ s. s.admin) [ none ↦ false | some _ ↦ true ]) Error.already_initialized
  require_auth c admin
  validate_contract_address c auth_contract
  modify (set_admin admin)
  modify (set_paused false)
  modify (set_auth_contract auth_contract)

unfoldable pub pause : Ctx → Address → Call State (Unit {0})
unfolding require_admin
pause c caller = do
  require_admin c caller
  fail_if (← gets is_paused) Error.contract_paused
  modify (set_paused true)

unfoldable pub unpause : Ctx → Address → Call State (Unit {0})
unfolding require_admin
unpause c caller = do
  require_admin c caller
  fail_if (not (← gets is_paused)) Error.contract_not_paused
  modify (set_paused false)

unfoldable pub transfer_admin : Ctx → Address → Address → Call State (Unit {0})
unfolding require_admin
transfer_admin c current_admin new_admin = do
  require_admin c current_admin
  validate_distinct_addresses current_admin new_admin
  require_auth c new_admin
  modify (set_admin new_admin)

unfoldable pub set_multisig_contract : Ctx → Address → Address → Call State (Unit {0})
unfolding require_admin
set_multisig_contract c caller multisig_contract = do
  require_admin c caller
  validate_contract_address c multisig_contract
  modify (Main.set_multisig_contract multisig_contract)

unfoldable pub set_timelock_contract : Ctx → Address → Address → Call State (Unit {0})
unfolding require_admin
set_timelock_contract c caller timelock_contract = do
  require_admin c caller
  validate_contract_address c timelock_contract
  modify (Main.set_timelock_contract timelock_contract)

-- `__simulate_multisig_pause`
unfoldable pub simulate_multisig_pause : Ctx → Address → Call State (Unit {0})
unfolding pause
simulate_multisig_pause c caller = pause c caller
