-- ===== src/Oracle/Invariant.antt =====
-- What every invocation of oracle.rs keeps.
use chain_logistics.Base.{
  ℕ, ◌≡◌, refl, ap, ◌∙◌, sym, subst, ◌⊎◌, inl, inr, Bool, true, false, Option, some, List, [], ◌∷◌,
  arith, contains, Bool-cases, Option-cases,
}
use chain_logistics.Base.Int.{ℤ}
use chain_logistics.Host.Call.{
  Address, Symbol, Bytes, Ctx, ok, committed-keeps, bind_sound, Keyed, put_at,
}
use chain_logistics.Types.{OracleFeedConfig}
use chain_logistics.Oracle.State.{OracleSource, OracleSnapshot, State, empty}
use chain_logistics.Oracle.Handlers.{
  oracle_init, set_timelock_contract, configure_feed, register_source, set_fallback_value,
  submit_report, recompute_snapshot, get_feed_value, clear_circuit_breaker, fallback_snapshot,
  is_recent,
}
use chain_logistics.Oracle.Sources.{SourcesInv}
use chain_logistics.Oracle.Snapshots.{
  SnapshotsInv, IsRecomputed, fallback_snapshot_sound, recompute_snapshot_sound,
}
use chain_logistics.Oracle.Requests.{
  Request, init, set_timelock, configure, register, set_fallback, submit, ask, clear, step, run,
  configure_feed_effect, register_source_effect, set_fallback_value_effect, setting_effects,
  reported, noted, submit_report_goes_on,
}
use chain_logistics.Oracle.Registration.{
  ConfigsInv, DistinctInv, put_at-ConfigsInv, not_listed, extended-DistinctInv,
  registered-SourcesInv,
}

pub record OracleInv (s : State) : Type 0 where
  pub configs : ConfigsInv s.feed_config
  pub distinct : DistinctInv s.feed_sources
  pub sources : SourcesInv s.feed_sources s.source
  pub snapshots : SnapshotsInv s.snapshot

-- The parts that the invariant does not read may change.
recomputed-OracleInv :
    (s s' s'' : State)
    → OracleInv s
    → (s'.feed_config ≡ s.feed_config)
    → (s'.feed_sources ≡ s.feed_sources)
    → IsRecomputed s' s''
    → OracleInv s''
recomputed-OracleInv s s' s'' inv configs lists (source, snapshot, circuit, i, j, e) =
    subst OracleInv (sym e) (record {
      configs = subst ConfigsInv (sym configs) inv.configs;
      distinct = subst DistinctInv (sym lists) inv.distinct;
      sources = i;
      snapshots = j;
    })

submit-keeps :
    (c : Ctx) (r : Address) (f : Symbol) (v : ℤ) (at : ℕ) (hash : Bytes) (s : State)
    {y : OracleSnapshot}
    → OracleInv s
    → (submit_report c r f v at hash s).0 ≡ ok y
    → OracleInv (submit_report c r f v at hash s).1
submit-keeps c r f v at hash s inv h =
    let (config, e, on) = submit_report_goes_on c r f v at hash s h in
    let s1 = reported c r f v at hash s in
    let (y, recomputed, same) =
      bind_sound (recompute_snapshot c f) (noted f r) s1 (sym (ap (λ z. z.0) on) ∙ h) in
    let (_, left) =
      recompute_snapshot_sound c config f s1 e (inv.configs f config e).some_sources inv.sources
        inv.snapshots recomputed in
    let k : OracleInv (recompute_snapshot c f s1).1 =
      recomputed-OracleInv s s1 (recompute_snapshot c f s1).1 inv refl refl left in
    subst (λ z. OracleInv z.1) (sym (on ∙ same))
      (record {
        configs = k.configs;
        distinct = k.distinct;
        sources = k.sources;
        snapshots = k.snapshots;
      })

ask_cases :
    (c : Ctx) (f : Symbol) (s : State)
    → ((get_feed_value c f s).1 ≡ s) ⊎ (get_feed_value c f s ≡ fallback_snapshot f 0 s)
unfolding get_feed_value
ask_cases c f s = elim (Option-cases (s.feed_config f)) [
  | inl e ↦ inl (ground (arith, e))
  | inr (config, e) ↦ elim (Option-cases (s.snapshot f)) [
    | inl n ↦ inr (ground (arith, e, n))
    | inr (x, n) ↦ elim (Bool-cases (is_recent c config x)) [
      | inl t ↦ inl (ground (arith, e, n, t))
      | inr t ↦ inr (ground (arith, e, n, t))
    ]
  ]
]

ask-keeps : (c : Ctx) (f : Symbol) (s : State) → OracleInv s → OracleInv (get_feed_value c f s).1
ask-keeps c f s inv = elim (ask_cases c f s) [
  | inl e ↦ subst OracleInv (sym e) inv
  | inr e ↦
      let (snapshot, circuit, j, moved) = fallback_snapshot_sound f 0 s inv.snapshots in
      subst (λ z. OracleInv z.1) (sym e)
        (recomputed-OracleInv s s (fallback_snapshot f 0 s).1 inv refl refl
          (s.source, snapshot, circuit, inv.sources, j, moved))
]

register-keeps :
    (c : Ctx) (caller : Address) (f : Symbol) (r : Address) (stake : ℤ) (s : State)
    → OracleInv s
    → (register_source c caller f r stake s).0 ≡ ok tt
    → OracleInv (register_source c caller f r stake s).1
register-keeps c caller f r stake s inv h =
    let (none_yet, positive, e) = register_source_effect c caller f r stake s h in
    let x : OracleSource = record {
      reporter = r;
      stake = stake;
      active = true;
      reward_points = 0;
      slash_count = 0;
    } in
    subst OracleInv (sym e) (record {
      configs = inv.configs;
      distinct =
          extended-DistinctInv s.feed_sources f r inv.distinct
            (not_listed s.feed_sources s.source f r inv.sources none_yet);
      sources = registered-SourcesInv s.feed_sources s.source f x inv.sources positive;
      snapshots = inv.snapshots;
    })

configure-keeps :
    (c : Ctx) (caller : Address) (config : OracleFeedConfig) (s : State)
    → OracleInv s
    → (configure_feed c caller config s).0 ≡ ok tt
    → OracleInv (configure_feed c caller config s).1
configure-keeps c caller config s inv h =
    let (valid, events, e) = configure_feed_effect c caller config s h in
    subst OracleInv (sym e) (record {
      configs = put_at-ConfigsInv s.feed_config config inv.configs valid;
      distinct = inv.distinct;
      sources = inv.sources;
      snapshots = inv.snapshots;
    })

-- The other settings do not matter.
same-OracleInv :
    (s : State) (a t : Option Address) (fallback : Keyed OracleSnapshot) (circuit : Keyed Bool)
    → OracleInv s
    → OracleInv (record s {
      admin = a;
      timelock_contract = t;
      fallback = fallback;
      circuit_broken = circuit;
    })
same-OracleInv s a t fallback circuit inv = record {
  configs = inv.configs;
  distinct = inv.distinct;
  sources = inv.sources;
  snapshots = inv.snapshots;
}

-- Every invocation of the oracle contract keeps: a feed's configuration stands under its name, its
-- range is not empty, and the sources it requires, the age and the deviation it admits are one at
-- least; the reporters of a feed are listed once each, and are
-- exactly those with a stored source, whose stake is never negative; and a stored snapshot is of
-- its feed, no fallback, and not marked as broken.
pub step-OracleInv : (c : Ctx) (r : Request) (s : State) → OracleInv s → OracleInv (step c r s)
unfolding step
step-OracleInv c (init a) s inv = committed-keeps OracleInv (oracle_init c a) s inv (λ _ h.
    subst OracleInv (sym ((setting_effects c a a "" s).0 h))
      (same-OracleInv s (some a) s.timelock_contract s.fallback s.circuit_broken inv))
step-OracleInv c (set_timelock caller t) s inv =
    committed-keeps OracleInv (set_timelock_contract c caller t) s inv (λ _ h.
      subst OracleInv (sym ((setting_effects c caller t "" s).1 h))
        (same-OracleInv s s.admin (some t) s.fallback s.circuit_broken inv))
step-OracleInv c (configure caller config) s inv =
    committed-keeps OracleInv (configure_feed c caller config) s inv
      (λ _ h. configure-keeps c caller config s inv h)
step-OracleInv c (register caller f r stake) s inv =
    committed-keeps OracleInv (register_source c caller f r stake) s inv
      (λ _ h. register-keeps c caller f r stake s inv h)
step-OracleInv c (set_fallback caller f v at) s inv =
    committed-keeps OracleInv (set_fallback_value c caller f v at) s inv (λ _ h.
      let (fallback, e) = set_fallback_value_effect c caller f v at s h in
      subst OracleInv (sym e)
        (same-OracleInv s s.admin s.timelock_contract fallback s.circuit_broken inv))
step-OracleInv c (submit r f v at hash) s inv =
    committed-keeps OracleInv (submit_report c r f v at hash) s inv
      (λ _ h. submit-keeps c r f v at hash s inv h)
step-OracleInv c (ask f) s inv =
    committed-keeps OracleInv (get_feed_value c f) s inv (λ _ _. ask-keeps c f s inv)
step-OracleInv c (clear caller f) s inv =
    committed-keeps OracleInv (clear_circuit_breaker c caller f) s inv (λ _ h.
      subst OracleInv (sym ((setting_effects c caller caller f s).2 h)) (
        same-OracleInv s s.admin s.timelock_contract s.fallback (put_at f false s.circuit_broken)
          inv))

pub run-OracleInv : (rs : List (Ctx × Request)) (s : State) → OracleInv s → OracleInv (run rs s)
unfolding run
run-OracleInv [] s inv = inv
run-OracleInv ((c, r) ∷ rs) s inv = run-OracleInv rs (step c r s) (step-OracleInv c r s inv)

pub empty-OracleInv : OracleInv empty
unfolding contains
empty-OracleInv = record {
  configs = λ g x e. absurd (ground (arith, e));
  distinct = λ g. tt;
  sources = record {
    stored = λ g r x e. absurd (ground (arith, e));
    known = λ g r l n. absurd (ground (arith, l));
  };
  snapshots = λ g y e. absurd (ground (arith, e));
}
