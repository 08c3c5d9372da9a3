-- ===== src/Oracle/Snapshots.antt =====
-- What a recomputation of a feed's value (oracle.rs) yields and leaves.
use chain_logistics.Base.{
  ℕ, ◌-◌, ◌≤◌, ◌≡◌, refl, ap, ◌∙◌, sym, subst, inl, inr, Bool, true, false, some, List, [], arith,
  ltb, length, str_eq, eq_iff, Bool-cases,
}
use chain_logistics.Base.Int.{ℤ, ◌≤ℤ◌}
use chain_logistics.Host.Call.{
  Symbol, Ctx, Call, ok, ◌>>=◌, ◌>>◌, bind_sound, Keyed, put_at, modify, pure,
}
use chain_logistics.Types.{OracleFeedConfig}
use chain_logistics.Oracle.State.{
  OracleReport, OracleSnapshot, OracleSource, PerReporter, State, load_feed_sources, store_snapshot,
  store_circuit_broken,
}
use chain_logistics.Oracle.Median.{median}
use chain_logistics.Oracle.Majority.{median-IsBetween}
use chain_logistics.Oracle.Handlers.{
  Accepted, accept_loop, recompute_snapshot, publish_snapshot, fallback_snapshot, fresh_loop,
  values_loop, none_accepted,
}
use chain_logistics.Oracle.Sources.{SourcesInv, IsRated}
use chain_logistics.Oracle.Accepting.{IsAccepted, fresh_loop-AllFresh}
use chain_logistics.Oracle.Rounds.{accept_loop_sound}

-- A value that is no fallback.
pub record IsConsensus (c : Ctx) (config : OracleFeedConfig) (reporters : ℕ) (y : OracleSnapshot)
    : Type 0 where
  pub at_least : config.min_value ≤ℤ y.value
  pub at_most : y.value ≤ℤ config.max_value
  pub enough : config.min_sources ≤ y.source_count
  pub no_more : y.source_count ≤ reporters
  pub past : y.observed_at ≤ c.timestamp
  pub recent : c.timestamp - y.observed_at ≤ config.max_age_seconds

-- A stored snapshot stands under its feed, and is neither a fallback nor marked as broken.
pub record IsSnapshot (g : Symbol) (y : OracleSnapshot) : Type 0 where
  pub keyed : y.feed_id ≡ g
  pub direct : y.using_fallback ≡ false
  pub whole : y.circuit_broken ≡ false

abbrev pub SnapshotsInv : Keyed OracleSnapshot → Type 0
SnapshotsInv snapshot = (g : Symbol) (y : OracleSnapshot) → snapshot g ≡ some y → IsSnapshot g y

put_at-SnapshotsInv :
    (snapshot : Keyed OracleSnapshot) (f : Symbol) (x : OracleSnapshot)
    → SnapshotsInv snapshot
    → IsSnapshot f x
    → SnapshotsInv (put_at x.feed_id x snapshot)
put_at-SnapshotsInv snapshot f x inv i g y h = elim (Bool-cases (str_eq f g)) [
  | inl t ↦
      let xy : x ≡ y = ground (arith, h, t, i.keyed) in
      subst (IsSnapshot g) xy (subst (λ q. IsSnapshot q x) ((eq_iff f g).0 t) i)
  | inr t ↦ inv g y (ground (arith, h, t, i.keyed))
]

-- What a publication leaves.
abbrev pub IsPublished : State → State → Type 0
IsPublished s s' =
    (snapshot : Keyed OracleSnapshot) × (circuit : Keyed Bool) × SnapshotsInv snapshot
    × (s' ≡ record s { snapshot = snapshot; circuit_broken = circuit })

pub fallback_snapshot_sound :
    (f : Symbol) (n : ℕ) (s : State)
    → SnapshotsInv s.snapshot
    → IsPublished s (fallback_snapshot f n s).1
unfolding fallback_snapshot
fallback_snapshot_sound f n s inv = (s.snapshot, put_at f true s.circuit_broken, inv, ground arith)

pub fallback_snapshot_marked :
    (f : Symbol) (n : ℕ) (s : State) {y : OracleSnapshot}
    → (fallback_snapshot f n s).0 ≡ ok y
    → y.using_fallback ≡ true
unfolding fallback_snapshot
fallback_snapshot_marked f n s h = ground arith

abbrev snapshot_of : Symbol → Accepted → ℤ → OracleSnapshot
snapshot_of f acc value = record {
  feed_id = f;
  value = value;
  observed_at = acc.observed_at;
  source_count = acc.count;
  using_fallback = false;
  circuit_broken = false;
}

abbrev store_of : Symbol → Accepted → ℤ → Call State OracleSnapshot
store_of f acc value = do
  modify (store_snapshot (snapshot_of f acc value))
  modify (store_circuit_broken f false)
  pure (snapshot_of f acc value)

median_state :
    (values : List ℤ) (s : State) {m : ℤ} → (median values s).0 ≡ ok m → (median values s).1 ≡ s
unfolding median
median_state values s h = ground arith

publish_snapshot_sound :
    (c : Ctx) (config : OracleFeedConfig) (f : Symbol) (acc : Accepted) (n : ℕ) (s : State)
    {y : OracleSnapshot}
    → IsAccepted c config acc
    → acc.count ≤ n
    → 1 ≤ config.min_sources
    → SnapshotsInv s.snapshot
    → (publish_snapshot config f acc s).0 ≡ ok y
    → (y.using_fallback ≡ false → IsConsensus c config n y)
      × IsPublished s (publish_snapshot config f acc s).1
unfolding publish_snapshot
publish_snapshot_sound c config f acc n s {y} k few one inv h =
    elim (Bool-cases (ltb acc.count config.min_sources)) [
      | inl t ↦
          let back : publish_snapshot config f acc s ≡ fallback_snapshot f acc.count s =
            ground (arith, t) in
          (
            λ d. absurd (
                ground (
                  arith,
                  d,
                  fallback_snapshot_marked f acc.count s (sym (ap (λ z. z.0) back) ∙ h),
                )),
            subst (λ z. IsPublished s z.1) (sym back) (fallback_snapshot_sound f acc.count s inv),
          )
      | inr t ↦
          let on : publish_snapshot config f acc s ≡ (median acc.values >>= store_of f acc) s =
            ground (arith, t) in
          let (m, found, same) =
            bind_sound (median acc.values) (store_of f acc) s (sym (ap (λ z. z.0) on) ∙ h) in
          let whole = on ∙ same ∙ ap (store_of f acc m) (median_state acc.values s found) in
          let x = snapshot_of f acc m in
          let some_count : 1 ≤ acc.count = ground (arith, t, one) in
          let xy : x ≡ y = ground (arith, sym (ap (λ z. z.0) whole) ∙ h) in
          let (low, high) =
            median-IsBetween s config.min_value config.max_value m acc.values k.collected.sorted
              (omega (arith, some_count, k.collected.counted, k.collected.in_range)) found in
          (
            λ _. subst (IsConsensus c config n) xy (record {
              at_least = low;
              at_most = high;
              enough = ground (arith, t);
              no_more = few;
              past = k.past;
              recent = k.recent some_count;
            }),
            (
              put_at f x s.snapshot,
              put_at f false s.circuit_broken,
              put_at-SnapshotsInv s.snapshot f x inv
                  (record { keyed = refl; direct = refl; whole = refl }),
              ap (λ z. z.1) whole,
            ),
          )
    ]

-- What a recomputation leaves: nothing but sources, snapshots and circuit breakers has changed.
abbrev pub IsRecomputed : State → State → Type 0
IsRecomputed s s' =
    (source : PerReporter OracleSource) × (snapshot : Keyed OracleSnapshot) × (circuit : Keyed Bool)
    × SourcesInv s.feed_sources source
    × SnapshotsInv snapshot
    × (s' ≡ record s { source = source; snapshot = snapshot; circuit_broken = circuit })

abbrev with_ratings : PerReporter OracleSource → Keyed OracleSnapshot → Keyed Bool → State → State
with_ratings source snapshot circuit s = record s {
  source = source;
  snapshot = snapshot;
  circuit_broken = circuit;
}

published_rated : (s s' s'' : State) → IsRated s s' → IsPublished s' s'' → IsRecomputed s s''
published_rated s s' s'' (source, inv, e) (snapshot, circuit, inv', e') = (
  source,
  snapshot,
  circuit,
  inv,
  inv',
  e' ∙ ap (λ (z : State). with_ratings z.source snapshot circuit z) e,
)

-- The fresh reports of a feed.
abbrev fresh : Ctx → OracleFeedConfig → Symbol → State → List OracleReport
fresh c config f s = fresh_loop c config f s (load_feed_sources f s)

nothing-IsAccepted : (c : Ctx) (config : OracleFeedConfig) → IsAccepted c config none_accepted
nothing-IsAccepted c config = record {
  collected = record { sorted = tt; counted = refl; in_range = refl };
  past = omega arith;
  recent = λ one. absurd (omega (arith, one));
}

-- The second loop and the publication, from the state that the reports are read in.
abbrev loops : Ctx → OracleFeedConfig → Symbol → State → ℤ → Call State OracleSnapshot
loops c config f s reference =
    accept_loop config f reference (fresh c config f s) none_accepted >>= publish_snapshot config f

loops_sound :
    (c : Ctx) (config : OracleFeedConfig) (f : Symbol) (reference : ℤ) (s : State)
    {y : OracleSnapshot}
    → 1 ≤ config.min_sources
    → SourcesInv s.feed_sources s.source
    → SnapshotsInv s.snapshot
    → (loops c config f s reference s).0 ≡ ok y
    → (y.using_fallback ≡ false → IsConsensus c config (length (load_feed_sources f s)) y)
      × IsRecomputed s (loops c config f s reference s).1
loops_sound c config f reference s one inv inv' h =
    let accepting = accept_loop config f reference (fresh c config f s) none_accepted in
    let (acc, rounds, same) = bind_sound accepting (publish_snapshot config f) s h in
    let s' = (accepting s).1 in
    let (all, few) = fresh_loop-AllFresh c config f s (load_feed_sources f s) in
    let (k, count, rated) =
      accept_loop_sound c config f reference (fresh c config f s) none_accepted s all
        (nothing-IsAccepted c config) inv rounds in
    let (_, _, moved) = rated in
    let inv'' : SnapshotsInv s'.snapshot = subst (λ z. SnapshotsInv z.snapshot) (sym moved) inv' in
    let (sound, published) =
      publish_snapshot_sound c config f acc (length (load_feed_sources f s)) s' k
        (omega (arith, count, few)) one inv'' (sym (ap (λ z. z.0) same) ∙ h) in
    (
      sound,
      subst (λ z. IsRecomputed s z.1) (sym same)
          (published_rated s s' (publish_snapshot config f acc s').1 rated published),
    )

pub recompute_snapshot_sound :
    (c : Ctx) (config : OracleFeedConfig) (f : Symbol) (s : State) {y : OracleSnapshot}
    → s.feed_config f ≡ some config
    → 1 ≤ config.min_sources
    → SourcesInv s.feed_sources s.source
    → SnapshotsInv s.snapshot
    → (recompute_snapshot c f s).0 ≡ ok y
    → (y.using_fallback ≡ false → IsConsensus c config (length (load_feed_sources f s)) y)
      × IsRecomputed s (recompute_snapshot c f s).1
unfolding recompute_snapshot
recompute_snapshot_sound c config f s {y} e one inv inv' h =
    let rs = fresh c config f s in
    let values = values_loop [] rs in
    elim (Bool-cases (ltb (length values) config.min_sources)) [
      | inl t ↦
          let back : recompute_snapshot c f s ≡ fallback_snapshot f (length values) s =
            ground (arith, e, t) in
          (
            λ d. absurd (
                ground (
                  arith,
                  d,
                  fallback_snapshot_marked f (length values) s (sym (ap (λ z. z.0) back) ∙ h),
                )),
            subst (λ z. IsRecomputed s z.1) (sym back)
                (published_rated s s (fallback_snapshot f (length values) s).1 (s.source, inv, refl)
                  (fallback_snapshot_sound f (length values) s inv')),
          )
      | inr t ↦
          let on : recompute_snapshot c f s ≡ (median values >>= loops c config f s) s =
            ground (arith, e, t) in
          let (reference, found, same) =
            bind_sound (median values) (loops c config f s) s (sym (ap (λ z. z.0) on) ∙ h) in
          let looped =
            on ∙ same ∙ ap (loops c config f s reference) (median_state values s found) in
          let (sound, left) =
            loops_sound c config f reference s one inv inv' (sym (ap (λ z. z.0) looped) ∙ h) in
          (sound, subst (λ z. IsRecomputed s z.1) (sym looped) left)
    ]
