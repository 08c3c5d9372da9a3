-- ===== src/Main/Admin.antt =====
-- The entry points of admin.rs, which passes its requests on to the main contract.
use chain_logistics.Base.{Bool, true, false, not, Option, none, some, List, ◌∷◌, ◌==◌}
use chain_logistics.Host.Errors.{Error}
use chain_logistics.Host.Call.{
  Address, Ctx, Call, ok, err, trap, ◌>>=◌, ◌>>◌, fail_if, ok_or, gets, modify, require_auth,
}
use chain_logistics.Products.State.{called}
use chain_logistics.Main.State as Main
use chain_logistics.Main.Handlers as MainContract

pub data AdminEvent : Type 0 where
  admin_initialized : Address → AdminEvent
  contract_paused : Address → AdminEvent
  contract_unpaused : Address → AdminEvent
  admin_transferred : Address → Address → AdminEvent

-- The storage of the administration contract, what it published, and the main contract.
pub record World : Type 0 where
  pub admin : Option Address
  pub main_contract : Option Address
  pub log : List AdminEvent
  pub main : Main.State

abbrev pub set_admin : Address → World → World
set_admin admin w = record w { admin = some admin }

abbrev pub set_main_contract : Address → World → World
set_main_contract a w = record w { main_contract = some a }

abbrev pub publish : AdminEvent → World → World
publish e w = record w { log = e ∷ w.log }

unfoldable pub require_admin : Ctx → Address → Call World (Unit {0})
require_admin c caller = do
  admin ← ok_or (← gets λ w. w.admin) Error.not_initialized
  require_auth c caller
  fail_if (not (admin == caller)) Error.unauthorized

-- A `try_` method of the main contract's client, whose failure is taken back, with the `match` on
-- its result: an error code is passed on, a panic becomes `InvalidInput`. (The
-- unit that these methods return always converts.)
unfoldable pub try_main : Call Main.State (Unit {0}) → Call World (Unit {0})
try_main m w =
    let (r, s) = m w.main in
    elim r [
      | ok _ ↦ (ok tt, record w { main = s })
      | err e ↦ (err e, w)
      | trap ↦ (err Error.invalid_input, w)
    ]

unfoldable pub admin_init : Ctx → Address → Address → Call World (Unit {0})
admin_init c admin main_contract = do
  fail_if (elim (← gets λ w. w.admin) [ none ↦ false | some _ ↦ true ]) Error.already_initialized
  require_auth c admin
  modify (set_admin admin)
  modify (set_main_contract main_contract)
  modify (publish (admin_initialized admin))

unfoldable pub get_admin : Call World Address
get_admin = do ok_or (← gets λ w. w.admin) Error.not_initialized

abbrev pub is_paused : World → Bool
is_paused w = elim w.main_contract [ none ↦ false | some _ ↦ Main.is_paused w.main ]

unfoldable pub pause : Ctx → Address → Call World (Unit {0})
unfolding require_admin try_main
pause c caller = do
  require_admin c caller
  main_contract ← ok_or (← gets λ w. w.main_contract) Error.not_initialized
  try_main (MainContract.pause (called c main_contract) caller)
  modify (publish (contract_paused caller))

unfoldable pub unpause : Ctx → Address → Call World (Unit {0})
unfolding require_admin try_main
unpause c caller = do
  require_admin c caller
  main_contract ← ok_or (← gets λ w. w.main_contract) Error.not_initialized
  try_main (MainContract.unpause (called c main_contract) caller)
  modify (publish (contract_unpaused caller))

unfoldable pub transfer_admin : Ctx → Address → Address → Call World (Unit {0})
unfolding require_admin try_main
transfer_admin c current_admin new_admin = do
  require_admin c current_admin
  require_auth c new_admin
  modify (set_admin new_admin)
  main_contract ← ok_or (← gets λ w. w.main_contract) Error.not_initialized
  try_main (MainContract.transfer_admin (called c main_contract) current_admin new_admin)
  modify (publish (admin_transferred current_admin new_admin))
