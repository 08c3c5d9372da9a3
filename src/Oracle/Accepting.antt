-- ===== src/Oracle/Accepting.antt =====
-- What the loops of a recomputation (oracle.rs) collect.
use chain_logistics.Base.{
  ℕ, suc, ◌+◌, ◌-◌, ◌≤◌, ◌≡◌, sym, subst, max, inl, inr, true, false, Option, none, some, List, [],
  ◌∷◌, arith, length, Bool-cases,
}
use chain_logistics.Base.Int.{ℤ}
use chain_logistics.Host.Call.{Address, Symbol, Ctx, if_true, if_false}
use chain_logistics.Types.{OracleFeedConfig}
use chain_logistics.Oracle.State.{OracleReport, State}
use chain_logistics.Oracle.Median.{insert_sorted}
use chain_logistics.Oracle.Sorting.{IsSorted, insert_sorted-IsSorted}
use chain_logistics.Oracle.Majority.{count_between, is_between, count_between-insert_loop}
use chain_logistics.Oracle.Handlers.{is_report_fresh, add_fresh, fresh_loop, values_loop, Accepted}

-- Every report is fresh.
abbrev pub AllFresh : Ctx → OracleFeedConfig → List OracleReport → Type 0
AllFresh c config [] = Unit
AllFresh c config (r ∷ rs) = (is_report_fresh c config r ≡ true) × AllFresh c config rs

add_fresh-AllFresh :
    (c : Ctx) (config : OracleFeedConfig) (o : Option OracleReport) (l : List OracleReport)
    → AllFresh c config l
    → AllFresh c config (add_fresh c config o l)
      × (length (add_fresh c config o l) ≤ suc (length l))
add_fresh-AllFresh c config none l h = (h, omega arith)
add_fresh-AllFresh c config (some r) l h = elim (Bool-cases (is_report_fresh c config r)) [
  | inl t ↦
      subst (λ l'. AllFresh c config l' × (length l' ≤ suc (length l))) (sym (if_true _ _ t))
        ((t, h), omega arith)
  | inr t ↦
      subst (λ l'. AllFresh c config l' × (length l' ≤ suc (length l))) (sym (if_false _ _ t))
        (h, omega arith)
]

pub fresh_loop-AllFresh :
    (c : Ctx) (config : OracleFeedConfig) (f : Symbol) (s : State) (reporters : List Address)
    → AllFresh c config (fresh_loop c config f s reporters)
      × (length (fresh_loop c config f s reporters) ≤ length reporters)
unfolding fresh_loop
fresh_loop-AllFresh c config f s [] = (tt, omega arith)
fresh_loop-AllFresh c config f s (a ∷ reporters) =
    let (h, few) = fresh_loop-AllFresh c config f s reporters in
    let (h', few') =
      add_fresh-AllFresh c config (s.report f a) (fresh_loop c config f s reporters) h in
    (h', omega (arith, few, few'))

-- The vector of values is kept sorted, one for each report, all of them in the range of the feed.
pub record IsCollected (config : OracleFeedConfig) (values : List ℤ) (count : ℕ) : Type 0 where
  pub sorted : IsSorted values
  pub counted : length values ≡ count
  pub in_range : count_between config.min_value config.max_value values ≡ count

pub insert-IsCollected :
    (c : Ctx) (config : OracleFeedConfig) (r : OracleReport) (values : List ℤ) (count : ℕ)
    → IsCollected config values count
    → is_report_fresh c config r ≡ true
    → IsCollected config (insert_sorted values r.value) (count + 1)
unfolding insert_sorted
insert-IsCollected c config r values count k h =
    let (b, l) = count_between-insert_loop config.min_value config.max_value r.value false values in
    let inside : is_between config.min_value config.max_value r.value ≡ true = ground (arith, h) in
    record {
      sorted = insert_sorted-IsSorted r.value values k.sorted;
      counted = omega (arith, l, k.counted);
      in_range = ground (arith, b, inside, k.in_range);
    }

pub values_loop-IsCollected :
    (c : Ctx) (config : OracleFeedConfig) (rs : List OracleReport) (values : List ℤ) (count : ℕ)
    → IsCollected config values count
    → AllFresh c config rs
    → IsCollected config (values_loop values rs) (count + length rs)
unfolding values_loop
values_loop-IsCollected c config [] values count k h =
    subst (IsCollected config values) (omega arith) k
values_loop-IsCollected c config (r ∷ rs) values count k (h, hs) =
    subst (IsCollected config (values_loop (insert_sorted values r.value) rs)) (omega arith) (
      values_loop-IsCollected c config rs (insert_sorted values r.value) (count + 1)
        (insert-IsCollected c config r values count k h) hs)

-- What the second loop has accepted so far.
pub record IsAccepted (c : Ctx) (config : OracleFeedConfig) (acc : Accepted) : Type 0 where
  pub collected : IsCollected config acc.values acc.count
  pub past : acc.observed_at ≤ c.timestamp
  pub recent : 1 ≤ acc.count → c.timestamp - acc.observed_at ≤ config.max_age_seconds

abbrev pub with_report : OracleReport → Accepted → Accepted
with_report r acc = record {
  values = insert_sorted acc.values r.value;
  count = acc.count + 1;
  observed_at = max acc.observed_at r.observed_at;
}

pub with_report-IsAccepted :
    (c : Ctx) (config : OracleFeedConfig) (r : OracleReport) (acc : Accepted)
    → IsAccepted c config acc
    → is_report_fresh c config r ≡ true
    → IsAccepted c config (with_report r acc)
with_report-IsAccepted c config r acc k h =
    let past : r.observed_at ≤ c.timestamp = ground (arith, h) in
    let recent : c.timestamp - r.observed_at ≤ config.max_age_seconds = ground (arith, h) in
    record {
      collected = insert-IsCollected c config r acc.values acc.count k.collected h;
      past = omega (arith, k.past, past);
      recent = λ _. omega (arith, recent);
    }
