-- ===== src/Timelock/Actions.antt =====
-- `perform_action` and `authorize_subcall` of timelock.rs: the cross-contract call of each action.
use chain_logistics.Base.{Bool, List, [], ◌∷◌, if◌then◌else◌}
use chain_logistics.Host.Call.{Address, Symbol, Ctx, Call, ok, trap, ◌>>◌, modify}
use chain_logistics.Timelock.State.{
  TimelockAction, pause_main, unpause_main, set_main_multisig, initiate_upgrade, complete_upgrade,
  fail_upgrade, emergency_pause, emergency_unpause, configure_oracle_feed, set_oracle_fallback,
  TimelockConfig, Val, address, version, boolean, symbol, feed_config, signed, unsigned, Invocation,
  State,
}

abbrev pub authorize_subcall : Address → Symbol → List Val → Call State (Unit {0})
authorize_subcall contract fn_name args = modify λ s. record s {
  authorizations =
      record { contract = contract; fn_name = fn_name; args = args } ∷ s.authorizations;
}

-- Whether the called contract returns; if it fails, the caller panics.
abbrev pub Callee : Type 0
Callee = Invocation → Bool

-- A generated client's method.
abbrev pub invoke : Callee → Address → Symbol → List Val → Call State (Unit {0})
invoke callee contract fn_name args s =
    let call : Invocation = record { contract = contract; fn_name = fn_name; args = args } in
    (if callee call then ok tt else trap, record s { invocations = call ∷ s.invocations })

abbrev pub subcall : Callee → Address → Symbol → List Val → Call State (Unit {0})
subcall callee contract fn_name args = do
  authorize_subcall contract fn_name args
  invoke callee contract fn_name args

unfoldable pub perform_action :
    Callee → Ctx → TimelockConfig → TimelockAction → Call State (Unit {0})
perform_action h c cfg pause_main =
    subcall h cfg.main_contract "pause" (address c.current_contract_address ∷ [])
perform_action h c cfg unpause_main =
    subcall h cfg.main_contract "unpause" (address c.current_contract_address ∷ [])
perform_action h c cfg (set_main_multisig m) =
    subcall h cfg.main_contract "set_multisig_contract"
      (address c.current_contract_address ∷ address m ∷ [])
perform_action h c cfg (initiate_upgrade v a migration_required) =
    subcall h cfg.upgrade_contract "initiate_upgrade"
      (address c.current_contract_address ∷ version v ∷ address a ∷ boolean migration_required ∷ [])
perform_action h c cfg complete_upgrade =
    subcall h cfg.upgrade_contract "complete_upgrade" (address c.current_contract_address ∷ [])
perform_action h c cfg (fail_upgrade reason) =
    subcall h cfg.upgrade_contract "fail_upgrade"
      (address c.current_contract_address ∷ symbol reason ∷ [])
perform_action h c cfg (emergency_pause reason) =
    subcall h cfg.upgrade_contract "emergency_pause"
      (address c.current_contract_address ∷ symbol reason ∷ [])
perform_action h c cfg emergency_unpause =
    subcall h cfg.upgrade_contract "emergency_unpause" (address c.current_contract_address ∷ [])
perform_action h c cfg (configure_oracle_feed oracle o) =
    subcall h oracle "configure_feed" (address c.current_contract_address ∷ feed_config o ∷ [])
perform_action h c cfg (set_oracle_fallback oracle feed_id value observed_at) =
    subcall h oracle "set_fallback_value" (
      address c.current_contract_address
      ∷ symbol feed_id
      ∷ signed value
      ∷ unsigned observed_at
      ∷ [])
