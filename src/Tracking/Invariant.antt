-- ===== src/Tracking/Invariant.antt =====
-- The indexes of tracking.rs agree with each other, whatever events are added.
use chain_logistics.Base.{ℕ, refl, sym, subst, inl, inr, Option, some, List, [], ◌∷◌}
use chain_logistics.Host.Call.{Address, Ctx}
use chain_logistics.Tracking.State.{State, empty, get_product_event_ids}
use chain_logistics.Tracking.Handlers.{MainContract}
use chain_logistics.Tracking.Requests.{add_cases, init_cases, Request, setup, add_event, step, run}
use chain_logistics.Tracking.Growth.{AllListed, TrackingInv, added-TrackingInv}

same-TrackingInv :
    (s : State) (a : Option Address) → TrackingInv s → TrackingInv (record s { main_contract = a })
same-TrackingInv s a h p = record {
  rising = (h p).rising;
  listed = AllListed-same (get_product_event_ids p s) (h p).listed;
  indexed = (h p).indexed;
  counted = (h p).counted;
}
  where
    AllListed-same :
        (ids : List ℕ) → AllListed s p ids → AllListed (record s { main_contract = a }) p ids
    AllListed-same [] _ = tt
    AllListed-same (i ∷ ids) (l, t) = (
      record {
        event = l.event;
        stored = l.stored;
        numbered = l.numbered;
        of_product = l.of_product;
        past = l.past;
      },
      AllListed-same ids t,
    )

-- Every invocation keeps the invariant: the numbers listed for a product are of its own stored
-- events and rise, as they were given, the index by type lists exactly those of the type, in
-- that order, and the counter by type is their number.
pub step-TrackingInv :
    (main : MainContract) (c : Ctx) (r : Request) (s : State)
    → TrackingInv s
    → TrackingInv (step main c r s)
unfolding step
step-TrackingInv main c (setup a) s h = elim (init_cases c a s) [
  | inl e ↦ subst TrackingInv (sym e) h
  | inr e ↦ subst TrackingInv (sym e) (same-TrackingInv s (some a) h)
]
step-TrackingInv main c (add_event x) s h = elim (add_cases main c x s) [
  | inl e ↦ subst TrackingInv (sym e) h
  | inr e ↦ subst TrackingInv (sym e) (added-TrackingInv c x s h)
]

pub run-TrackingInv :
    (main : MainContract) (rs : List (Ctx × Request)) (s : State)
    → TrackingInv s
    → TrackingInv (run main rs s)
unfolding run
run-TrackingInv main [] s h = h
run-TrackingInv main ((c, r) ∷ rs) s h =
    run-TrackingInv main rs (step main c r s) (step-TrackingInv main c r s h)

pub empty-TrackingInv : TrackingInv empty
empty-TrackingInv p = record {
  rising = tt;
  listed = tt;
  indexed = λ kind k. refl;
  counted = λ kind. refl;
}
