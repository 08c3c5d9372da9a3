-- ===== src/Quality/Statistics.antt =====
-- The running statistics of quality_control.rs are those of the listed readings.
use chain_logistics.Base.{
  ℕ, ◌+◌, ◌≡◌, refl, ap, sym, ◌⊎◌, ◌∙◌, subst, inl, inr, Option, none, some, String, List, [], ◌∷◌,
  arith, push_back, str_eq, eq_iff, Bool-cases,
}
use chain_logistics.Base.Int.{ℤ, ◌+ℤ◌}
use chain_logistics.Host.Errors.{Error}
use chain_logistics.Host.Call.{
  Ctx, Call, Outcome, ok, err, trap, committed-keeps, put_at, Keyed, unwrap_or,
}
use chain_logistics.Quality.Summary.{IsSummary, values_of, values_of-push_back, updated-IsSummary}
use chain_logistics.Quality.Requests.{
  Request, setup, certify, measure, define, authorize, revoke, step, run,
}
use chain_logistics.Quality.Queries.{
  define_quality_parameters, authorize_sensor, revoke_sensor_authorization,
}
use chain_logistics.Quality.State as QualityStore
use chain_logistics.Quality.State.{
  empty, QualityReading, ParameterStats, no_stats, State, get_quality_readings, get_parameter_stats,
  put_at2,
}
use chain_logistics.Quality.Handlers.{
  NewReading, generate_reading_id, determine_reading_status, is_critical_high, reading_of,
  store_reading, updated, update_parameter_stats, record_quality_reading, init_quality_control,
  add_quality_certification,
}

-- The statistics of every parameter of every product are those of its listed readings.
abbrev pub StatsInv : State → Type 0
StatsInv s =
    (p : String) (parameter : String)
    → IsSummary (get_parameter_stats p parameter s) (values_of parameter (get_quality_readings p s))

-- A call that changes nothing succeeds or does not.
result_cases :
    {A : Type 0} (m : Call State A) (s : State)
    → (m s).1 ≡ s
    → ((t : A) × (m s ≡ (ok t, s))) ⊎ (((e : Error) × (m s ≡ (err e, s))) ⊎ (m s ≡ (trap, s)))
result_cases {A = A} m s same = go (m s).0 refl
  where
    go :
        (r : Outcome A)
        → (m s).0 ≡ r
        → ((t : A) × (m s ≡ (ok t, s))) ⊎ (((e : Error) × (m s ≡ (err e, s))) ⊎ (m s ≡ (trap, s)))
    go (ok t) e = inl (t, ground (arith, e, same))
    go (err x) e = inr (inl (x, ground (arith, e, same)))
    go trap e = inr (inr (ground (arith, e, same)))

status_state :
    (v : ℤ) (low high : Option ℤ) (s : State) → (determine_reading_status v low high s).1 ≡ s
unfolding determine_reading_status is_critical_high
status_state v low none s = refl
status_state v low (some max) s = ground arith

id_state : (p i : String) (t : ℕ) (s : State) → (generate_reading_id p i t s).1 ≡ s
unfolding generate_reading_id
id_state p i t s = refl

-- A reading that is recorded is stored.
stores :
    (c : Ctx) (x : NewReading) (s : State) {r : QualityReading}
    → (record_quality_reading c x s).0 ≡ ok r
    → (t : String) × (i : String) × (record_quality_reading c x s
        ≡ store_reading c (reading_of c x t i) s)
unfolding record_quality_reading
stores c x s h =
    let status = determine_reading_status x.value x.threshold_min x.threshold_max in
    let id = generate_reading_id x.product x.sensor_id c.timestamp in
    elim (result_cases status s (status_state x.value x.threshold_min x.threshold_max s)) [
      | inl (t, e) ↦ elim (result_cases id s (id_state x.product x.sensor_id c.timestamp s)) [
        | inl (i, k) ↦ (t, i, ground (arith, h, e, k))
        | inr (inl (_, k)) ↦ absurd (ground (arith, h, e, k))
        | inr (inr k) ↦ absurd (ground (arith, h, e, k))
      ]
      | inr (inl (_, e)) ↦ absurd (ground (arith, h, e))
      | inr (inr e) ↦ absurd (ground (arith, h, e))
    ]

stored :
    (c : Ctx) (q : QualityReading) (s : State) {r : QualityReading}
    → (store_reading c q s).0 ≡ ok r
    → let s' = (store_reading c q s).1 in
      let st = get_parameter_stats q.product_id q.parameter s in
      (s'.readings
        ≡ put_at q.product_id (push_back (get_quality_readings q.product_id s) q) s.readings)
      × (s'.stats
          ≡ put_at2 q.product_id q.parameter
              (updated st (st.count + 1) (st.sum +ℤ q.value) q.value c.timestamp)
              s.stats)
unfolding store_reading update_parameter_stats
stored c q s h = elim (Bool-cases (str_eq q.status "critical")) [
  | inl t ↦ (ground (arith, h, t), ground (arith, h, t))
  | inr t ↦ (ground (arith, h, t), ground (arith, h, t))
]

recorded-StatsInv :
    (c : Ctx) (q : QualityReading) (s : State) {r : QualityReading}
    → StatsInv s
    → (store_reading c q s).0 ≡ ok r
    → StatsInv (store_reading c q s).1
recorded-StatsInv c q s inv h p parameter =
    let (e, k) = stored c q s h in
    let st = get_parameter_stats q.product_id q.parameter s in
    let rs = get_quality_readings q.product_id s in
    let s' = (store_reading c q s).1 in
    let new = updated st (st.count + 1) (st.sum +ℤ q.value) q.value c.timestamp in
    let push = values_of-push_back parameter rs q in
    elim (Bool-cases (str_eq q.product_id p)) [
      | inl t ↦
          let same = (eq_iff q.product_id p).0 t in
          let listed : get_quality_readings p s' ≡ push_back rs q = ground (arith, e, t) in
          elim (Bool-cases (str_eq q.parameter parameter)) [
            | inl u ↦
                let here = (eq_iff q.parameter parameter).0 u in
                let now : get_parameter_stats p parameter s' ≡ new = ground (arith, k, t, u) in
                let values : values_of parameter (get_quality_readings p s')
                    ≡ push_back (values_of parameter rs) q.value =
                  ap (values_of parameter) listed ∙ push ∙ ground (arith, u) in
                let old : IsSummary st (values_of parameter rs) =
                  subst (λ l. IsSummary st (values_of l rs)) here (inv q.product_id q.parameter) in
                rw now (
                  rw values (updated-IsSummary st (values_of parameter rs) q.value c.timestamp old))
            | inr u ↦
                let now : get_parameter_stats p parameter s' ≡ get_parameter_stats p parameter s =
                  ground (arith, k, t, u) in
                let values : values_of parameter (get_quality_readings p s')
                    ≡ values_of parameter (get_quality_readings p s) =
                  ap (values_of parameter) listed
                  ∙ push
                  ∙ ground (arith, u)
                  ∙ ap (λ g. values_of parameter (get_quality_readings g s)) same in
                rw now (rw values (inv p parameter))
          ]
      | inr t ↦
          let now : get_parameter_stats p parameter s' ≡ get_parameter_stats p parameter s =
            ground (arith, k, t) in
          let listed : get_quality_readings p s' ≡ get_quality_readings p s =
            ground (arith, e, t) in
          rw now (rw listed (inv p parameter))
    ]

same_records :
    (s s' : State) → StatsInv s → s'.readings ≡ s.readings → s'.stats ≡ s.stats → StatsInv s'
same_records s s' inv e k p parameter =
    let now : get_parameter_stats p parameter s' ≡ get_parameter_stats p parameter s =
      ap (λ m. unwrap_or (m p parameter) no_stats) k in
    let listed : get_quality_readings p s' ≡ get_quality_readings p s =
      ap (λ (m : Keyed (List QualityReading)). unwrap_or (m p) []) e in
    rw now (rw listed (inv p parameter))

-- Every invocation keeps: for every parameter of every product the stored number, sum and mean are
-- those of the values that are listed for it, and, where there are any, the stored least and greatest
-- value are members of them between which all of them lie.
pub step-StatsInv : (c : Ctx) (r : Request) (s : State) → StatsInv s → StatsInv (step c r s)
unfolding step init_quality_control add_quality_certification define_quality_parameters
    authorize_sensor revoke_sensor_authorization QualityStore.authorize_sensor
    QualityStore.revoke_sensor_authorization
step-StatsInv c (setup a p) s inv =
    same_records s (step c (setup a p) s) inv (ground arith) (ground arith)
step-StatsInv c (certify a p k i n f u m) s inv =
    same_records s (step c (certify a p k i n f u m) s) inv (ground arith) (ground arith)
step-StatsInv c (measure x) s inv =
    committed-keeps StatsInv (record_quality_reading c x) s inv λ r h.
      let (t, i, e) = stores c x s h in
      let q = reading_of c x t i in
      subst StatsInv (sym (ap (λ z. z.1) e))
        (recorded-StatsInv c q s inv (sym (ap (λ z. z.0) e) ∙ h))
step-StatsInv c (define a p l) s inv =
    same_records s (step c (define a p l) s) inv (ground arith) (ground arith)
step-StatsInv c (authorize a p x i k) s inv =
    same_records s (step c (authorize a p x i k) s) inv (ground arith) (ground arith)
step-StatsInv c (revoke a p x) s inv =
    same_records s (step c (revoke a p x) s) inv (ground arith) (ground arith)

pub run-StatsInv : (rs : List (Ctx × Request)) (s : State) → StatsInv s → StatsInv (run rs s)
unfolding run
run-StatsInv [] s inv = inv
run-StatsInv ((c, r) ∷ rs) s inv = run-StatsInv rs (step c r s) (step-StatsInv c r s inv)

pub empty-StatsInv : StatsInv empty
unfolding values_of
empty-StatsInv p parameter = record {
  counted = refl;
  summed = refl;
  bounded = tt;
  least = λ n. absurd (n refl);
  greatest = λ n. absurd (n refl);
  mean = λ n. absurd (n refl);
}
