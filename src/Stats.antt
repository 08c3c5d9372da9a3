-- ===== src/Stats.antt =====
-- The statistics contract (smart-contract/contracts/src/stats.rs), which reads the registry and the
-- tracking contract.
mod Tests
use chain_logistics.Base.{
  ℕ, ◌+◌, ◌-◌, ◌/◌, ◌≡◌, ◌≢◌, refl, ◌∙◌, sym, ap, inl, inr, Bool, true, false, ◌||◌, Option, none,
  some, String, List, [], ◌∷◌, arith, ltb, ◌==◌, length, if◌then◌else◌, Option-cases, Bool-cases,
}
use chain_logistics.Host.Errors.{Error}
use chain_logistics.Host.Call.{
  Address, Symbol, Ctx, Call, Outcome, ok, ◌>>=◌, ◌>>◌, pure, fail_if, ok_or, gets, modify,
  unwrap_or,
}
use chain_logistics.Tracking.State as TrackingStore
use chain_logistics.Tracking.State.{get_product_event_ids, get_event_count_by_type}
use chain_logistics.Tracking.History.{has_kind}
use chain_logistics.Tracking.Growth.{TrackingInv}
use chain_logistics.Tracking.Queries.{scan_ids}
use chain_logistics.Tracking.Pages.{scan_ids_lem}
use chain_logistics.Products.State.{World}
use chain_logistics.Products.Queries.{ProductStats, get_stats}

-- `event_seq` is the entry of this contract's own storage.
pub record State : Type 0 where
  pub registry_contract : Option Address
  pub tracking_contract : Option Address
  pub event_seq : Option ℕ

abbrev pub empty : State
empty = record { registry_contract = none; tracking_contract = none; event_seq = none }

-- The contracts that it reads.
pub record Sources : Type 0 where
  pub shop : World
  pub tracking : TrackingStore.State

unfoldable pub init : Address → Address → Call State (Unit {0})
init registry_contract tracking_contract = do
  fail_if
      (elim (← gets λ s. s.registry_contract) [ none ↦ false | some _ ↦ true ]
        || elim (← gets λ s. s.tracking_contract) [ none ↦ false | some _ ↦ true ])
      Error.already_initialized
  modify (λ s. record s { registry_contract = some registry_contract })
  modify (λ s. record s { tracking_contract = some tracking_contract })

abbrev pub require_registry : Call State Address
require_registry = do ok_or (← gets λ s. s.registry_contract) Error.not_initialized

abbrev pub require_tracking : Call State Address
require_tracking = do ok_or (← gets λ s. s.tracking_contract) Error.not_initialized

unfoldable pub stats_get_stats : Sources → Call State ProductStats
stats_get_stats src = require_registry >> pure (get_stats src.shop)

unfoldable pub get_total_products : Sources → Call State ℕ
get_total_products src = require_registry >> pure (get_stats src.shop).total_products

unfoldable pub get_active_products : Sources → Call State ℕ
get_active_products src = require_registry >> pure (get_stats src.shop).active_products

-- `total.saturating_sub(active)`
unfoldable pub get_inactive_products : Sources → Call State ℕ
get_inactive_products src =
    require_registry
    >> pure ((get_stats src.shop).total_products - (get_stats src.shop).active_products)

unfoldable pub get_total_events : Call State ℕ
get_total_events = do require_tracking; gets (λ s. unwrap_or s.event_seq 0)

unfoldable pub get_product_stats : Sources → String → Call State (ℕ × Bool)
get_product_stats src product_id = do
  require_registry
  require_tracking
  product ← ok_or (src.shop.registry.product product_id) Error.product_not_found
  pure (length (get_product_event_ids product_id src.tracking), product.active)

unfoldable pub get_average_events_per_product : Sources → Call State ℕ
unfolding get_total_products get_total_events
get_average_events_per_product src = do
  require_registry
  total_products ← get_total_products src
  if total_products == 0
      then pure 0
      else get_total_events >>= λ total_events. pure (total_events / total_products)

abbrev pub event_types : List Symbol
event_types = "created" ∷ "shipped" ∷ "received" ∷ "transferred" ∷ "updated" ∷ []

-- The loop over the types, with what it has found.
unfoldable pub count_types : TrackingStore.State → String → List Symbol → List (Symbol × ℕ)
count_types tracking product_id [] = []
count_types tracking product_id (t ∷ types) =
    let count = get_event_count_by_type product_id t tracking in
    let rest = count_types tracking product_id types in
    if ltb 0 count then (t, count) ∷ rest else rest

unfoldable pub get_event_type_distribution : Sources → String → Call State (List (Symbol × ℕ))
get_event_type_distribution src product_id = do
  require_registry
  require_tracking
  ok_or (src.shop.registry.product product_id) Error.product_not_found
  pure (count_types src.tracking product_id event_types)

-- The distribution as a scan of the events finds it.
unfoldable pub scan_types : TrackingStore.State → String → List Symbol → List (Symbol × ℕ)
scan_types tracking product_id [] = []
scan_types tracking product_id (t ∷ types) =
    let count =
      length (scan_ids tracking (has_kind t) (get_product_event_ids product_id tracking)) in
    let rest = scan_types tracking product_id types in
    if ltb 0 count then (t, count) ∷ rest else rest

count_types-scan_types :
    (s : TrackingStore.State) (p : String) (types : List Symbol)
    → TrackingInv s
    → count_types s p types ≡ scan_types s p types
unfolding count_types scan_types
count_types-scan_types s p [] inv = refl
count_types-scan_types s p (t ∷ types) inv =
    let count : get_event_count_by_type p t s
        ≡ length (scan_ids s (has_kind t) (get_product_event_ids p s)) =
      (inv p).counted t
      ∙ ap length (sym (scan_ids_lem s (has_kind t) (get_product_event_ids p s))) in
    ground (arith, count, count_types-scan_types s p types inv)

-- Where the tracking contract's invariant holds and the product is registered, the distribution has
-- for each of the five common types that occurs the number of the product's events of this
-- type, as a scan of all of them counts it.
pub get_event_type_distribution_lem :
    (src : Sources) (p : String) (s : State) (registry tracking : Address)
    → TrackingInv src.tracking
    → s.registry_contract ≡ some registry
    → s.tracking_contract ≡ some tracking
    → src.shop.registry.product p ≢ none
    → get_event_type_distribution src p s ≡ (ok (scan_types src.tracking p event_types), s)
unfolding get_event_type_distribution
get_event_type_distribution_lem src p s registry tracking inv r t here =
    elim (Option-cases (src.shop.registry.product p)) [
      | inl e ↦ absurd (here e)
      | inr (x, e) ↦ ground (arith, r, t, e, count_types-scan_types src.tracking p event_types inv)
    ]

-- However many products and events there are, a statistics contract that has been set up answers that
-- there are no events and none for a product on the average: it reads the number of the last
-- event in its own storage, where no entry point writes it.
pub no_events_counted :
    (src : Sources) (registry tracking : Address)
    → let s = (init registry tracking empty).1 in
      (get_total_events s ≡ (ok 0, s)) × (get_average_events_per_product src s ≡ (ok 0, s))
unfolding init get_total_events get_average_events_per_product get_total_products
no_events_counted src registry tracking = (ground arith, ground arith)
