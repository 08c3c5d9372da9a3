-- ===== src/Oracle/Tests.antt =====
-- oracle.rs on concrete inputs.
use chain_logistics.Base.{ℕ, ◌≡◌, refl, true, false, some, List, [], ◌∷◌, arith, length}
use chain_logistics.Base.Int.{ℤ, pos, negsuc, ◌≤ℤ◌}
use chain_logistics.Host.Call.{Bytes, Ctx, ok}
use chain_logistics.Types.{OracleFeedConfig, fuel_price}
use chain_logistics.Oracle.State.{OracleSnapshot, State, empty, load_feed_sources}
use chain_logistics.Oracle.Median.{insert_loop, insert_sorted, median, deviation_bps}
use chain_logistics.Oracle.Handlers.{
  require_controller, oracle_init, configure_feed, register_source, set_fallback_value,
  submit_report, validate_report, recompute_snapshot, publish_snapshot, accept_loop, reward_source,
  slash_source, fresh_loop, values_loop, fallback_snapshot,
}
use chain_logistics.Oracle.Requests.{
  Request, init, configure, register, set_fallback, submit, ask, step, run,
}
use chain_logistics.Oracle.Majority.{median_majority}
use chain_logistics.Oracle.Snapshots.{IsConsensus}
use chain_logistics.Oracle.Invariant.{OracleInv, step-OracleInv, run-OracleInv, empty-OracleInv}
use chain_logistics.Oracle.Reports.{submit_report_sound}
use chain_logistics.Oracle.Starvation.{IsStarved, starved_feed}

abbrev moment : ℕ → Ctx
moment t = record { timestamp = t; current_contract_address = 50; authorized = λ _. true }

abbrev fuel : OracleFeedConfig
fuel = record {
  feed_id = "fuel";
  feed_type = fuel_price;
  min_value = pos 1;
  max_value = pos 1000;
  max_age_seconds = 60;
  min_sources = 2;
  max_deviation_bps = 500;
}

abbrev hash : Bytes
hash = 7 ∷ []

abbrev started : List (Ctx × Request)
started =
    (moment 1, init 9)
    ∷ (moment 2, configure 9 fuel)
    ∷ (moment 3, register 9 "fuel" 1 (pos 10))
    ∷ (moment 3, register 9 "fuel" 2 (pos 10))
    ∷ (moment 3, register 9 "fuel" 3 (pos 10))
    ∷ []

abbrev bare : State
bare = run started empty

abbrev served : State
served =
    run
      ((moment 4, set_fallback 9 "fuel" (pos 90) 4)
        ∷ (moment 10, submit 1 "fuel" (pos 100) 10 hash)
        ∷ (moment 11, submit 2 "fuel" (pos 103) 11 hash)
        ∷ [])
      bare

bare-OracleInv : OracleInv bare
bare-OracleInv = run-OracleInv started empty empty-OracleInv

served-OracleInv : OracleInv served
served-OracleInv =
    run-OracleInv
      ((moment 4, set_fallback 9 "fuel" (pos 90) 4)
        ∷ (moment 10, submit 1 "fuel" (pos 100) 10 hash)
        ∷ (moment 11, submit 2 "fuel" (pos 103) 11 hash)
        ∷ [])
      bare bare-OracleInv

step-OracleInv_example : OracleInv (step (moment 12) (submit 3 "fuel" (pos 500) 12 hash) served)
step-OracleInv_example =
    step-OracleInv (moment 12) (submit 3 "fuel" (pos 500) 12 hash) served served-OracleInv

-- The third value is far from the median of the three, and its source is slashed.
abbrev consensus : OracleSnapshot
consensus = record {
  feed_id = "fuel";
  value = pos 101;
  observed_at = 11;
  source_count = 2;
  using_fallback = false;
  circuit_broken = false;
}

agreed : (submit_report (moment 12) 3 "fuel" (pos 500) 12 hash served).0 ≡ ok consensus
unfolding run step require_controller oracle_init configure_feed register_source set_fallback_value
    submit_report validate_report recompute_snapshot publish_snapshot accept_loop reward_source
    slash_source fresh_loop values_loop fallback_snapshot insert_loop insert_sorted median
    deviation_bps
agreed = refl

submit_report_sound_example :
    (config : OracleFeedConfig) × (served.feed_config "fuel" ≡ some config)
    × IsConsensus (moment 12) config (length (load_feed_sources "fuel" served)) consensus
submit_report_sound_example =
    submit_report_sound (moment 12) 3 "fuel" (pos 500) 12 hash served consensus served-OracleInv
      agreed refl

abbrev uses : List (Ctx × Request)
uses =
    (moment 10, submit 1 "fuel" (pos 100) 10 hash)
    ∷ (moment 11, submit 2 "fuel" (pos 103) 11 hash)
    ∷ (moment 12, ask "fuel")
    ∷ []

bare-IsStarved : IsStarved "fuel" fuel bare
unfolding run step require_controller oracle_init configure_feed register_source
bare-IsStarved = record {
  configured = refl;
  several = omega arith;
  no_snapshot = refl;
  no_fallback = refl;
  no_report = λ r. refl;
}

starved_feed_example : run uses bare ≡ bare
starved_feed_example =
    starved_feed "fuel" fuel uses bare bare-OracleInv bare-IsStarved (refl, (refl, (refl, tt)))

abbrev readings : List ℤ
readings = pos 5 ∷ negsuc 900 ∷ pos 7 ∷ pos 6 ∷ []

median_majority_example : (pos 5 ≤ℤ pos 5) × (pos 5 ≤ℤ pos 7)
unfolding median insert_sorted insert_loop
median_majority_example = median_majority tt (pos 5) (pos 7) (pos 5) readings (omega arith) refl
