-- ===== src/Oracle/Rounds.antt =====
-- The rounds of the second loop of a recomputation (oracle.rs).
use chain_logistics.Base.{
  ℕ, ◌+◌, ◌≤◌, ◌≡◌, refl, ap, ◌∙◌, sym, subst, inl, inr, true, List, [], ◌∷◌, arith, leb, length,
  Bool-cases,
}
use chain_logistics.Base.Int.{ℤ}
use chain_logistics.Host.Call.{Symbol, Ctx, Call, ok, ◌>>◌, bind_sound}
use chain_logistics.Types.{OracleFeedConfig}
use chain_logistics.Oracle.State.{OracleReport, OracleSource, PerReporter, State}
use chain_logistics.Oracle.Median.{deviation_bps}
use chain_logistics.Oracle.Handlers.{
  is_report_fresh, Accepted, accept_report, accept_loop, reward_source, slash_source,
}
use chain_logistics.Oracle.Sources.{
  SourcesInv, IsRated, reward_source-IsRated, slash_source-IsRated,
}
use chain_logistics.Oracle.Accepting.{AllFresh, IsAccepted, with_report, with_report-IsAccepted}

abbrev with_source : PerReporter OracleSource → State → State
with_source source s = record s { source = source }

IsRated-trans : (s s' s'' : State) → IsRated s s' → IsRated s' s'' → IsRated s s''
IsRated-trans s s' s'' (x, i, e) (y, j, e') =
    (y, subst (λ l. SourcesInv l y) (ap (λ z. z.feed_sources) e) j, e' ∙ ap (with_source y) e)

-- A deviation is computed without a change of the state.
deviation_bps_state :
    (a b : ℤ) (s : State) {n : ℕ} → (deviation_bps a b s).0 ≡ ok n → (deviation_bps a b s).1 ≡ s
unfolding deviation_bps
deviation_bps_state a b s h = ground arith

-- What a round of the second loop leaves.
record IsRound (c : Ctx) (config : OracleFeedConfig) (s : State) (acc acc' : Accepted) (s' : State)
    : Type 0 where
  accepted : IsAccepted c config acc'
  one_more : acc'.count ≤ acc.count + 1
  rated : IsRated s s'

accept_report_sound :
    (c : Ctx) (config : OracleFeedConfig) (f : Symbol) (r : OracleReport) (acc : Accepted)
    (rest : Accepted → Call State Accepted) (n : ℕ) (s : State) {last : Accepted}
    → is_report_fresh c config r ≡ true
    → IsAccepted c config acc
    → SourcesInv s.feed_sources s.source
    → (accept_report config f r acc rest n s).0 ≡ ok last
    → (acc' : Accepted) × (s' : State) × IsRound c config s acc acc' s'
      × (accept_report config f r acc rest n s ≡ rest acc' s')
accept_report_sound c config f r acc rest n s fresh k inv h =
    elim (Bool-cases (leb n config.max_deviation_bps)) [
      | inl t ↦
          let acc' = with_report r acc in
          let near : accept_report config f r acc rest n s
              ≡ (reward_source f r.reporter >> rest acc') s =
            ground (arith, t, h) in
          let (_, rewarded, same) =
            bind_sound (reward_source f r.reporter) (λ _. rest acc') s
              (sym (ap (λ z. z.0) near) ∙ h) in
          (
            acc',
            (reward_source f r.reporter s).1,
            record {
              accepted = with_report-IsAccepted c config r acc k fresh;
              one_more = omega arith;
              rated = reward_source-IsRated f r.reporter s inv rewarded;
            },
            near ∙ same,
          )
      | inr t ↦
          let far : accept_report config f r acc rest n s
              ≡ (slash_source f r.reporter >> rest acc) s =
            ground (arith, t) in
          let (_, slashed, same) =
            bind_sound (slash_source f r.reporter) (λ _. rest acc) s
              (sym (ap (λ z. z.0) far) ∙ h) in
          (
            acc,
            (slash_source f r.reporter s).1,
            record {
              accepted = k;
              one_more = omega arith;
              rated = slash_source-IsRated f r.reporter s inv slashed;
            },
            far ∙ same,
          )
    ]

-- The second loop accepts a part of the reports, and changes only the sources.
pub accept_loop_sound :
    (c : Ctx) (config : OracleFeedConfig) (f : Symbol) (reference : ℤ) (rs : List OracleReport)
    (acc : Accepted) (s : State) {last : Accepted}
    → AllFresh c config rs
    → IsAccepted c config acc
    → SourcesInv s.feed_sources s.source
    → (accept_loop config f reference rs acc s).0 ≡ ok last
    → IsAccepted c config last
      × (last.count ≤ acc.count + length rs)
      × IsRated s (accept_loop config f reference rs acc s).1
unfolding accept_loop
accept_loop_sound c config f reference [] acc s {last} _ k inv h =
    let same : acc ≡ last = ground (arith, h) in
    (subst (IsAccepted c config) same k, ground (arith, same), (s.source, inv, refl))
accept_loop_sound c config f reference (r ∷ rs) acc s {last} (fresh, all) k inv h =
    let rest = accept_loop config f reference rs in
    let (n, measured, same) =
      bind_sound (deviation_bps r.value reference) (accept_report config f r acc rest) s h in
    let here = deviation_bps_state r.value reference s measured in
    let at_s = same ∙ ap (accept_report config f r acc rest n) here in
    let h1 = sym (ap (λ z. z.0) at_s) ∙ h in
    let (acc', s', round, on) = accept_report_sound c config f r acc rest n s fresh k inv h1 in
    let (sources, inv', moved) = round.rated in
    let inv'' : SourcesInv s'.feed_sources s'.source =
      subst (λ z. SourcesInv z.feed_sources z.source) (sym moved) inv' in
    let (k', few, rated) =
      accept_loop_sound c config f reference rs acc' s' all round.accepted inv''
        (sym (ap (λ z. z.0) on) ∙ h1) in
    (
      k',
      omega (arith, few, round.one_more),
      subst (λ z. IsRated s z.1) (sym (at_s ∙ on))
          (IsRated-trans s s' (accept_loop config f reference rs acc' s').1 round.rated rated),
    )
