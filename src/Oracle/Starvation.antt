-- ===== src/Oracle/Starvation.antt =====
-- A feed of oracle.rs that never starts.
use chain_logistics.Base.{
  ℕ, ◌+◌, ◌≤◌, ◌<◌, ◌≡◌, ◌≢◌, refl, ap, ◌∙◌, sym, subst, inl, inr, true, false, Option, none, some,
  List, [], ◌∷◌, arith, length, ltb, contains, Distinct, Bool-cases, if◌then◌else◌, ◌==◌,
}
use chain_logistics.Base.Int.{ℤ}
use chain_logistics.Host.Call.{
  Address, Symbol, Bytes, Ctx, Call, ok, err, committed, committed-keeps, bind_sound,
}
use chain_logistics.Host.Errors.{Error}
use chain_logistics.Types.{OracleFeedConfig}
use chain_logistics.Oracle.State.{OracleReport, OracleSnapshot, State, load_feed_sources}
use chain_logistics.Oracle.Handlers.{
  add_fresh, fresh_loop, values_loop, submit_report, recompute_snapshot, get_feed_value,
  fallback_snapshot,
}
use chain_logistics.Oracle.Requests.{
  Request, submit, ask, step, run, reported, noted, submit_report_goes_on,
}
use chain_logistics.Oracle.Invariant.{OracleInv}
use chain_logistics.Oracle.Accepting.{fresh_loop-AllFresh, values_loop-IsCollected}

-- Nothing has been stored for the feed, and one source is not enough for it.
pub record IsStarved (f : Symbol) (config : OracleFeedConfig) (s : State) : Type 0 where
  pub configured : s.feed_config f ≡ some config
  pub several : 2 ≤ config.min_sources
  pub no_snapshot : s.snapshot f ≡ none
  pub no_fallback : s.fallback f ≡ none
  pub no_report : (r : Address) → s.report f r ≡ none

add_fresh_few :
    (c : Ctx) (config : OracleFeedConfig) (o : Option OracleReport) (l : List OracleReport)
    → length (add_fresh c config o l) ≤ length l + 1
add_fresh_few c config none l = omega arith
add_fresh_few c config (some r) l = ground arith

-- With the reports of one reporter only, at most one is fresh.
one_fresh :
    (c : Ctx) (config : OracleFeedConfig) (f : Symbol) (r : Address) (s : State) (l : List Address)
    → ((q : Address) → (r == q) ≡ false → s.report f q ≡ none)
    → Distinct l
    → length (fresh_loop c config f s l) ≤ (if contains l r then 1 else 0)
unfolding fresh_loop contains
one_fresh c config f r s [] only d = omega arith
one_fresh c config f r s (q ∷ l) only (n, d) = elim (Bool-cases (r == q)) [
  | inl t ↦
      let rq : r ≡ q = ground (arith, t) in
      let gone : contains l r ≡ false = ap (contains l) rq ∙ n in
      let rest = one_fresh c config f r s l only d in
      let few = add_fresh_few c config (s.report f q) (fresh_loop c config f s l) in
      ground (arith, t, gone, rest, few)
  | inr t ↦
      let skip : add_fresh c config (s.report f q) (fresh_loop c config f s l)
          ≡ fresh_loop c config f s l =
        ap (λ o. add_fresh c config o (fresh_loop c config f s l)) (only q t) in
      ground (arith, t, skip, one_fresh c config f r s l only d)
]

-- Too few reports and nothing to fall back on.
nothing_to_publish :
    (c : Ctx) (config : OracleFeedConfig) (f : Symbol) (s : State)
    → s.feed_config f ≡ some config
    → s.snapshot f ≡ none
    → s.fallback f ≡ none
    → length (values_loop [] (fresh_loop c config f s (load_feed_sources f s))) < config.min_sources
    → (recompute_snapshot c f s).0 ≡ err Error.oracle_fallback_unavailable
unfolding recompute_snapshot fallback_snapshot
nothing_to_publish c config f s e n m few =
    let t : ltb (length (values_loop [] (fresh_loop c config f s (load_feed_sources f s))))
          config.min_sources
        ≡ true =
      ground (arith, few) in
    ground (arith, e, n, m, t)

submit_fails :
    (c : Ctx) (config : OracleFeedConfig) (r : Address) (f : Symbol) (v : ℤ) (at : ℕ) (hash : Bytes)
    (s : State) (y : OracleSnapshot)
    → OracleInv s
    → IsStarved f config s
    → (submit_report c r f v at hash s).0 ≢ ok y
submit_fails c config r f v at hash s y inv k h =
    let (config', e, on) = submit_report_goes_on c r f v at hash s h in
    let s1 = reported c r f v at hash s in
    let (x, recomputed, _) =
      bind_sound (recompute_snapshot c f) (noted f r) s1 (sym (ap (λ z. z.0) on) ∙ h) in
    let l = load_feed_sources f s1 in
    let others : (q : Address) → (r == q) ≡ false → s1.report f q ≡ none =
      λ q n. ground (arith, n, k.no_report q) in
    let few = one_fresh c config f r s1 l others (inv.distinct f) in
    let (all, _) = fresh_loop-AllFresh c config f s1 l in
    let values =
      values_loop-IsCollected c config (fresh_loop c config f s1 l) [] 0
        (record { sorted = tt; counted = refl; in_range = refl }) all in
    let short : length (values_loop [] (fresh_loop c config f s1 l)) < config.min_sources =
      ground (arith, few, values.counted, k.several) in
    let failed = nothing_to_publish c config f s1 k.configured k.no_snapshot k.no_fallback short in
    absurd (ground (arith, recomputed, failed))

-- A call that never succeeds is taken back.
committed_fails :
    {A : Type 0} (m : Call State A) (s : State) → ((a : A) → (m s).0 ≢ ok a) → committed m s ≡ s
committed_fails m s h = committed-keeps (λ s'. s' ≡ s) m s refl (λ a e. absurd (h a e))

ask_fails :
    (c : Ctx) (config : OracleFeedConfig) (f : Symbol) (s : State) (y : OracleSnapshot)
    → IsStarved f config s
    → (get_feed_value c f s).0 ≢ ok y
unfolding get_feed_value fallback_snapshot
ask_fails c config f s y k h =
    absurd (ground (arith, k.configured, k.no_snapshot, k.no_fallback, h))

-- A report to the feed, or a question for its value.
abbrev pub IsUse : Symbol → Request → Type 0
IsUse f (submit r g v at hash) = g ≡ f
IsUse f (ask g) = g ≡ f
IsUse f _ = ⊥

abbrev pub AllUses : Symbol → List (Ctx × Request) → Type 0
AllUses f [] = Unit
AllUses f ((_, r) ∷ rs) = IsUse f r × AllUses f rs

use_step :
    (c : Ctx) (config : OracleFeedConfig) (f : Symbol) (r : Request) (s : State)
    → OracleInv s
    → IsStarved f config s
    → IsUse f r
    → step c r s ≡ s
unfolding step
use_step c config f (submit r g v at hash) s inv k u =
    committed_fails (submit_report c r g v at hash) s (
      subst (λ h. (y : OracleSnapshot) → (submit_report c r h v at hash s).0 ≢ ok y) (sym u)
        (λ y. submit_fails c config r f v at hash s y inv k))
use_step c config f (ask g) s inv k u = committed_fails (get_feed_value c g) s (
    subst (λ h. (y : OracleSnapshot) → (get_feed_value c h s).0 ≢ ok y) (sym u)
      (λ y. ask_fails c config f s y k))
use_step c config f _ s inv k u = absurd u

-- A feed that needs two sources or more, and has neither a report nor a fallback value, stays so however
-- many reports its reporters submit, whoever submits them and when: each submission fails for want
-- of a fallback, and the host takes its report back.
pub starved_feed :
    (f : Symbol) (config : OracleFeedConfig) (rs : List (Ctx × Request)) (s : State)
    → OracleInv s
    → IsStarved f config s
    → AllUses f rs
    → run rs s ≡ s
unfolding run
starved_feed f config [] s inv k u = refl
starved_feed f config ((c, r) ∷ rs) s inv k (u, us) =
    ap (run rs) (use_step c config f r s inv k u) ∙ starved_feed f config rs s inv k us
