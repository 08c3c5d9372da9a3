-- ===== src/Upgrade/Safety.antt =====
-- Who may start and complete an upgrade by upgrade.rs, and when.
use chain_logistics.Base.{
  ◌+◌, ◌≤◌, ◌≡◌, ◌∙◌, ◌≢◌, ◌⊎◌, inl, inr, true, false, Bool, none, some, arith, Option-cases,
}
use chain_logistics.Host.Call.{Address, Ctx, ok}
use chain_logistics.Types.{ContractVersion}
use chain_logistics.Upgrade.State.{
  UpgradeInfo, in_progress, completed, State, get_contract_version, load_upgrade_status,
  get_emergency_pause,
}
use chain_logistics.Upgrade.Handlers.{initiate_upgrade, complete_upgrade, may_act, require_admin}
use chain_logistics.Upgrade.Versions.{IsNewer, new_info, validate_version_upgrade_lem}

-- The caller is the administrator, the multisig or the timelock, and acts with authority: it has
-- authorised the call, or it is this contract and is not the administrator.
pub record IsGovernor (c : Ctx) (a : Address) (s : State) : Type 0 where
  pub known : (s.admin ≡ some a) ⊎ ((s.multisig_contract ≡ some a) ⊎ (s.timelock_contract ≡ some a))
  pub acts : may_act c a ≡ true
  pub initialized : s.admin ≢ none

require_admin_lem :
    (c : Ctx) (a : Address) (s : State)
    → ((require_admin c a s ≡ (ok tt, s)) × IsGovernor c a s)
      ⊎ (((require_admin c a s).0 ≢ ok tt) × ((require_admin c a s).1 ≡ s))
unfolding require_admin
require_admin_lem c a s = elim (Option-cases s.admin) [
  | inl e ↦ ground arith
  | inr (x, e) ↦ elim (Option-cases s.multisig_contract) [
    | inl m ↦ elim (Option-cases s.timelock_contract) [
      | inl t ↦ ground arith
      | inr (y, t) ↦ ground arith
    ]
    | inr (z, m) ↦ elim (Option-cases s.timelock_contract) [
      | inl t ↦ ground arith
      | inr (y, t) ↦ ground arith
    ]
  ]
]

-- What a successful start of an upgrade tells and does.
pub record Starts (c : Ctx) (a : Address) (v : ContractVersion) (n : Address) (m : Bool)
    (s s' : State) : Type 0 where
  pub by_governor : IsGovernor c a s
  pub not_paused : get_emergency_pause s ≡ false
  pub idle : load_upgrade_status s ≢ in_progress
  pub newer : IsNewer (get_contract_version s) v
  pub near : v.major ≤ (get_contract_version s).major + 1
  pub begun : load_upgrade_status s' ≡ in_progress
  pub informed : s'.info ≡ some (new_info c a v n m)
  pub same_version : s'.version ≡ s.version
  pub same_admin : s'.admin ≡ s.admin

-- If `initiate_upgrade` succeeds, then the caller is the administrator, the multisig or the timelock
-- and acts with authority; there is no emergency pause and no other upgrade in progress; the new
-- version is newer than the present one, by one major step at most; and the upgrade is now in
-- progress, with the arguments stored and the present
-- version and the administrator left as they are.
pub initiate_upgrade_sound :
    (c : Ctx) (a : Address) (v : ContractVersion) (n : Address) (m : Bool) (s : State)
    → (initiate_upgrade c a v n m s).0 ≡ ok tt
    → Starts c a v n m s (initiate_upgrade c a v n m s).1
unfolding initiate_upgrade
initiate_upgrade_sound c a v n m s h =
    ground
      (arith, require_admin_lem c a s, validate_version_upgrade_lem (get_contract_version s) v s)

complete_succeeds :
    (c : Ctx) (a : Address) (s : State) (info : UpgradeInfo)
    → s.admin ≡ some a
    → c.authorized a ≡ true
    → load_upgrade_status s ≡ in_progress
    → s.info ≡ some info
    → let r = complete_upgrade c a s in
      (r.0 ≡ ok tt)
      × (get_contract_version r.1 ≡ info.new_version)
      × (load_upgrade_status r.1 ≡ completed)
unfolding complete_upgrade require_admin
complete_succeeds c a s info e u p q = ground arith

-- After a successful start of an upgrade, an authorised call of `complete_upgrade` by the
-- administrator succeeds, and the stored version is then the one
-- that was started.
pub complete_started_upgrade :
    (c d : Ctx) (a b : Address) (v : ContractVersion) (n : Address) (m : Bool) (s : State)
    → (initiate_upgrade c a v n m s).0 ≡ ok tt
    → s.admin ≡ some b
    → d.authorized b ≡ true
    → let r = complete_upgrade d b (initiate_upgrade c a v n m s).1 in
      (r.0 ≡ ok tt) × (get_contract_version r.1 ≡ v) × (load_upgrade_status r.1 ≡ completed)
complete_started_upgrade c d a b v n m s h e u =
    let x = initiate_upgrade_sound c a v n m s h in
    complete_succeeds d b (initiate_upgrade c a v n m s).1 (new_info c a v n m) (x.same_admin ∙ e) u
      x.begun x.informed
