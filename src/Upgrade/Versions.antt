-- ===== src/Upgrade/Versions.antt =====
-- The version that upgrade.rs stores only grows, one major step at most by each upgrade.
use chain_logistics.Base.{
  ◌+◌, ◌≤◌, ◌<◌, ◌≡◌, refl, ◌∙◌, sym, ap, subst, ◌≢◌, ◌⊎◌, inl, inr, false, Bool, some, List, [],
  ◌∷◌, arith, Option-cases,
}
use chain_logistics.Host.Call.{Address, Ctx, ok, unwrap_or}
use chain_logistics.Types.{ContractVersion}
use chain_logistics.Upgrade.State.{
  UpgradeInfo, in_progress, State, first_version, get_contract_version, load_upgrade_status,
  get_emergency_pause,
}
use chain_logistics.Upgrade.Handlers.{
  set_multisig_contract, set_timelock_contract, initiate_upgrade, complete_upgrade, fail_upgrade,
  emergency_pause, emergency_unpause, reset_upgrade_status, validate_version_upgrade,
}
use chain_logistics.Upgrade.Requests.{
  Request, set_multisig, set_timelock, initiate, complete, give_up, pause, unpause, reset, step,
  run,
}

-- The lexicographic order of versions.
abbrev pub IsNewer : ContractVersion → ContractVersion → Type 0
IsNewer old new =
    (old.major < new.major)
    ⊎ ((old.major ≡ new.major)
        × ((old.minor < new.minor) ⊎ ((old.minor ≡ new.minor) × (old.patch < new.patch))))

abbrev pub IsNoOlder : ContractVersion → ContractVersion → Type 0
IsNoOlder old new = (new ≡ old) ⊎ IsNewer old new

IsNewer-trans : (u v w : ContractVersion) → IsNewer u v → IsNewer v w → IsNewer u w
IsNewer-trans u v w h k = ground arith

IsNoOlder-trans : (u v w : ContractVersion) → IsNoOlder u v → IsNoOlder v w → IsNoOlder u w
IsNoOlder-trans u v w (inl e) (inl f) = inl (f ∙ e)
IsNoOlder-trans u v w (inl e) (inr k) = inr (subst (λ x. IsNewer x w) e k)
IsNoOlder-trans u v w (inr h) (inl f) = inr (subst (IsNewer u) (sym f) h)
IsNoOlder-trans u v w (inr h) (inr k) = inr (IsNewer-trans u v w h k)

-- An upgrade in progress has a version, newer than the present one, by one major step at most.
abbrev pub UpgradeInv : State → Type 0
UpgradeInv s =
    load_upgrade_status s ≡ in_progress
    → (info : UpgradeInfo) × (s.info ≡ some info)
      × IsNewer (get_contract_version s) info.new_version
      × (info.new_version.major ≤ (get_contract_version s).major + 1)

pub validate_version_upgrade_lem :
    (old new : ContractVersion) (s : State)
    → ((validate_version_upgrade old new s ≡ (ok tt, s))
        × IsNewer old new
        × (new.major ≤ old.major + 1))
      ⊎ (((validate_version_upgrade old new s).0 ≢ ok tt)
          × ((validate_version_upgrade old new s).1 ≡ s))
unfolding validate_version_upgrade
validate_version_upgrade_lem old new s = ground arith

-- What a call does to the stored version: it stays, or an upgrade in progress is completed.
abbrev pub Advances : State → State → Type 0
Advances s s' =
    (get_contract_version s' ≡ get_contract_version s)
    ⊎ ((info : UpgradeInfo) × (load_upgrade_status s ≡ in_progress)
        × (s.info ≡ some info)
        × (get_contract_version s' ≡ info.new_version))

-- What a successful call of `initiate_upgrade` stores.
abbrev pub new_info : Ctx → Address → ContractVersion → Address → Bool → UpgradeInfo
new_info c a v n m = record {
  new_version = v;
  new_contract_address = n;
  upgrade_timestamp = c.timestamp;
  upgraded_by = a;
  migration_required = m;
}

initiate_cases :
    (c : Ctx) (a : Address) (v : ContractVersion) (n : Address) (m : Bool) (s : State)
    → let s' = (initiate_upgrade c a v n m s).1 in
      let old = get_contract_version s in
      (s' ≡ s)
      ⊎ ((s'.info ≡ some (new_info c a v n m))
          × (s'.version ≡ s.version)
          × IsNewer old v
          × (v.major ≤ old.major + 1)
          × (load_upgrade_status s ≢ in_progress)
          × (get_emergency_pause s ≡ false))
unfolding initiate_upgrade
initiate_cases c a v n m s =
    ground (arith, validate_version_upgrade_lem (get_contract_version s) v s)

initiate-UpgradeInv :
    (c : Ctx) (a : Address) (v : ContractVersion) (n : Address) (m : Bool) (s : State)
    → UpgradeInv s
    → UpgradeInv (initiate_upgrade c a v n m s).1
      × (get_contract_version (initiate_upgrade c a v n m s).1 ≡ get_contract_version s)
initiate-UpgradeInv c a v n m s h = elim (initiate_cases c a v n m s) [
  | inl e ↦ rw e (h, refl)
  | inr (e, w, newer, near, _, _) ↦
      let same : get_contract_version (initiate_upgrade c a v n m s).1 ≡ get_contract_version s =
        ap (λ x. unwrap_or x first_version) w in
      (
        λ _. (
          new_info c a v n m,
          e,
          subst (λ x. IsNewer x v) (sym same) newer,
          subst (λ (x : ContractVersion). v.major ≤ x.major + 1) (sym same) near,
        ),
        same,
      )
]

complete-UpgradeInv :
    (c : Ctx) (a : Address) (s : State)
    → UpgradeInv s
    → UpgradeInv (complete_upgrade c a s).1 × Advances s (complete_upgrade c a s).1
unfolding complete_upgrade
complete-UpgradeInv c a s h = elim (Option-cases s.info) [
  | inl e ↦ ground (arith, h)
  | inr (info, e) ↦ ground (arith, h)
]

-- Any other call leaves the version, and what an upgrade in progress rests on, alone.
same-UpgradeInv :
    (s s' : State)
    → s'.version ≡ s.version
    → (load_upgrade_status s' ≡ in_progress
        → (s'.info ≡ s.info) × (load_upgrade_status s ≡ in_progress))
    → UpgradeInv s
    → UpgradeInv s' × Advances s s'
same-UpgradeInv s s' v k h =
    let same : get_contract_version s' ≡ get_contract_version s =
      ap (λ x. unwrap_or x first_version) v in
    (
      λ e.
          let (i, p) = k e in
          let (info, q, newer, near) = h p in
          (
            info,
            i ∙ q,
            subst (λ x. IsNewer x info.new_version) (sym same) newer,
            subst (λ (x : ContractVersion). info.new_version.major ≤ x.major + 1) (sym same) near,
          ),
      inl same,
    )

step-Advances :
    (c : Ctx) (r : Request) (s : State)
    → UpgradeInv s
    → UpgradeInv (step c r s) × Advances s (step c r s)
unfolding step
step-Advances c (set_multisig a m) s h =
    unfold set_multisig_contract in
    same-UpgradeInv s (set_multisig_contract c a m s).1 (ground arith) (ground arith) h
step-Advances c (set_timelock a t) s h =
    unfold set_timelock_contract in
    same-UpgradeInv s (set_timelock_contract c a t s).1 (ground arith) (ground arith) h
step-Advances c (initiate a v n m) s h =
    let (i, e) = initiate-UpgradeInv c a v n m s h in (i, inl e)
step-Advances c (complete a) s h = complete-UpgradeInv c a s h
step-Advances c (give_up a r) s h =
    unfold fail_upgrade in
    same-UpgradeInv s (fail_upgrade c a r s).1 (ground arith) (ground arith) h
step-Advances c (pause a r) s h =
    unfold emergency_pause in
    same-UpgradeInv s (emergency_pause c a r s).1 (ground arith) (ground arith) h
step-Advances c (unpause a) s h =
    unfold emergency_unpause in
    same-UpgradeInv s (emergency_unpause c a s).1 (ground arith) (ground arith) h
step-Advances c (reset a) s h =
    unfold reset_upgrade_status in
    same-UpgradeInv s (reset_upgrade_status c a s).1 (ground arith) (ground arith) h

step_newer :
    (s s' : State)
    → UpgradeInv s
    → Advances s s'
    → IsNoOlder (get_contract_version s) (get_contract_version s')
step_newer s s' h (inl e) = inl e
step_newer s s' h (inr (info, p, q, e)) =
    let (info', q', newer, _) = h p in inr (ground (arith, q, q', e, newer))

-- Every call, successful or not, keeps the invariant: an upgrade in progress is to a version newer
-- than the present one, by one major step at most.
pub step-UpgradeInv : (c : Ctx) (r : Request) (s : State) → UpgradeInv s → UpgradeInv (step c r s)
step-UpgradeInv c r s h = (step-Advances c r s h).0

-- From a state that satisfies the invariant, no sequence of calls makes the stored version older.
pub version_never_decreases :
    (rs : List (Ctx × Request)) (s : State)
    → UpgradeInv s
    → IsNoOlder (get_contract_version s) (get_contract_version (run rs s))
unfolding run
version_never_decreases [] s h = inl refl
version_never_decreases ((c, r) ∷ rs) s h =
    let (i, e) = step-Advances c r s h in
    IsNoOlder-trans (get_contract_version s) (get_contract_version (step c r s))
      (get_contract_version (run rs (step c r s))) (step_newer s (step c r s) h e)
      (version_never_decreases rs (step c r s) i)
