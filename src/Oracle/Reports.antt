-- ===== src/Oracle/Reports.antt =====
-- What a report to oracle.rs comes to.
use chain_logistics.Base.{ℕ, ◌≡◌, ap, ◌∙◌, sym, subst, false, some, arith, length}
use chain_logistics.Base.Int.{ℤ}
use chain_logistics.Host.Call.{Address, Symbol, Bytes, Ctx, ok, bind_sound}
use chain_logistics.Types.{OracleFeedConfig}
use chain_logistics.Oracle.State.{OracleSnapshot, State, load_feed_sources}
use chain_logistics.Oracle.Handlers.{submit_report, recompute_snapshot}
use chain_logistics.Oracle.Snapshots.{IsConsensus, recompute_snapshot_sound}
use chain_logistics.Oracle.Requests.{reported, noted, submit_report_goes_on}
use chain_logistics.Oracle.Invariant.{OracleInv}

-- A report whose submission succeeds with a value that is no fallback: the value is in the feed's
-- range, rests on as many sources as are required and on no more than are registered, and was
-- observed at the latest now and no longer ago than the feed allows.
pub submit_report_sound :
    (c : Ctx) (r : Address) (f : Symbol) (v : ℤ) (at : ℕ) (hash : Bytes) (s : State)
    (y : OracleSnapshot)
    → OracleInv s
    → (submit_report c r f v at hash s).0 ≡ ok y
    → y.using_fallback ≡ false
    → (config : OracleFeedConfig) × (s.feed_config f ≡ some config)
      × IsConsensus c config (length (load_feed_sources f s)) y
submit_report_sound c r f v at hash s y inv h direct =
    let (config, e, on) = submit_report_goes_on c r f v at hash s h in
    let s1 = reported c r f v at hash s in
    let (x, recomputed, same) =
      bind_sound (recompute_snapshot c f) (noted f r) s1 (sym (ap (λ z. z.0) on) ∙ h) in
    let xy : x ≡ y = ground (arith, sym (ap (λ z. z.0) (on ∙ same)) ∙ h) in
    let (sound, _) =
      recompute_snapshot_sound c config f s1 e (inv.configs f config e).some_sources inv.sources
        inv.snapshots recomputed in
    (
      config,
      e,
      subst (IsConsensus c config (length (load_feed_sources f s))) xy
          (sound (ap (λ z. z.using_fallback) xy ∙ direct)),
    )
