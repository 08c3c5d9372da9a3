-- ===== src/Main/Tests.antt =====
-- contract.rs and admin.rs on concrete inputs.
use chain_logistics.Base.{
  ℕ, ◌+◌, ◌≡◌, ◌⊎◌, refl, inr, true, false, some, none, List, [], ◌∷◌, arith, str_eq, ◌==◌, ◌&&◌,
  if◌then◌else◌,
}
use chain_logistics.Host.Call.{Symbol, Ctx, ok}
use chain_logistics.Validation.{validate_metadata, check_values}
use chain_logistics.Products.State.{Product}
use chain_logistics.Tracking.State as TrackingStore
use chain_logistics.Tracking.Requests.{NewEvent, last_event, added}
use chain_logistics.Tracking.Growth.{TrackingInv}
use chain_logistics.Tracking.Invariant.{empty-TrackingInv}
use chain_logistics.Tracking.History.{history, has_kind}
use chain_logistics.Tracking.Queries.{TrackingEventFilter, is_between, matches}
use chain_logistics.Tracking.Pages.{page_of}
use chain_logistics.Main.State.{State}
use chain_logistics.Main.Handlers as MainContract
use chain_logistics.Main.Handlers.{require_admin}
use chain_logistics.Main.Events.{
  AuthContract, require_can_add_event, store_event, add_tracking_event,
}
use chain_logistics.Main.Queries.{
  get_product_events, get_events_by_type, get_events_by_time_range, get_filtered_events,
}
use chain_logistics.Main.Requests.{stop, add, step, SameControl}
use chain_logistics.Main.Adding.{MayAdd, add_tracking_event_sound}
use chain_logistics.Main.Reading.{main_pages, rest_of, past_pages_unbounded}
use chain_logistics.Main.Control.{MayChange, changed_by_controller}
use chain_logistics.Main.Admin.{
  World, admin_transferred, try_main, transfer_admin, require_admin as require_own_admin,
}
use chain_logistics.Main.Administration.{Administers, transfer_admin_sound}
use chain_logistics.Main.Parting.{AdminRequest, go_on, hand_over, run, direct_transfer_parts}

abbrev moment : ℕ → Ctx
moment t = record { timestamp = t; current_contract_address = 9; authorized = λ _. true }

abbrev coffee : Product
coffee = record {
  id = "PROD1";
  name = "Coffee";
  description = "Beans";
  origin = record { location = "Huila" };
  owner = 1;
  created_at = 5;
  active = true;
  category = "Food";
  tags = [];
  certifications = [];
  media_hashes = [];
  custom = [];
  deactivation_info = [];
}

abbrev opened : State
opened = record {
  admin = some 5;
  paused = some false;
  auth_contract = some 6;
  multisig_contract = some 7;
  timelock_contract = none;
  product = λ p. if str_eq p "PROD1" then some coffee else none;
  events = TrackingStore.empty;
}

-- The owner may act on its product.
abbrev rights : AuthContract
rights a p x = some (a == 6 && (str_eq p "PROD1" && x == 1))

abbrev shipment : Symbol → NewEvent
shipment kind = record {
  by = 1;
  product = "PROD1";
  kind = kind;
  location = "Port";
  data_hash = [];
  note = "";
  metadata = [];
}

adds : (add rights (moment 10) (shipment "shipped") opened).0 ≡ ok 1
unfolding add_tracking_event require_can_add_event store_event validate_metadata check_values
adds = refl

add_tracking_event_sound_example :
    MayAdd rights (moment 10) (shipment "shipped") opened
    × ((add rights (moment 10) (shipment "shipped") opened).1
        ≡ record opened { events = added (moment 10) (shipment "shipped") opened.events })
    × (1 ≡ last_event opened.events + 1)
    × TrackingInv (add rights (moment 10) (shipment "shipped") opened).1.events
add_tracking_event_sound_example =
    add_tracking_event_sound rights (moment 10) (shipment "shipped") opened empty-TrackingInv adds

abbrev shipped : State
shipped = record opened { events = added (moment 10) (shipment "shipped") opened.events }

shipped-TrackingInv : TrackingInv shipped.events
unfolding add_tracking_event require_can_add_event store_event validate_metadata check_values
shipped-TrackingInv = add_tracking_event_sound_example.3

-- The stored multisig may pause; others may not.
changed_by_controller_example :
    SameControl opened (step rights (moment 20) (stop 7) opened)
    ⊎ MayChange (moment 20) (stop 7) opened
changed_by_controller_example = changed_by_controller rights (moment 20) (stop 7) opened

paused_by_multisig :
    ((step rights (moment 20) (stop 7) opened).paused ≡ some true)
    × ((step rights (moment 20) (stop 8) opened).paused ≡ some false)
unfolding step MainContract.pause require_admin
paused_by_multisig = (refl, refl)

abbrev early : TrackingEventFilter
early = record { event_type = "shipped"; start_time = 0; end_time = 35; location = "" }

main_pages_example :
    let ids = TrackingStore.get_product_event_ids "PROD1" shipped.events in
    (get_product_events "PROD1" 0 2 shipped
      ≡ (ok (page_of 0 2 (history shipped.events (λ _. true) ids)), shipped))
    × (get_events_by_type "PROD1" "shipped" 0 2 shipped
        ≡ (ok (page_of 0 2 (history shipped.events (has_kind "shipped") ids)), shipped))
    × (get_events_by_time_range (moment 60) "PROD1" 5 50 0 2 shipped
        ≡ (ok (page_of 0 2 (history shipped.events (is_between 5 50) ids)), shipped))
    × (get_filtered_events (moment 60) "PROD1" early 0 2 shipped
        ≡ (ok (page_of 0 2 (history shipped.events (matches early) ids)), shipped))
main_pages_example =
    main_pages (moment 60) "PROD1" "shipped" 5 50 early 0 2 shipped shipped-TrackingInv
      (λ e. absurd (cc)) refl refl (omega arith) (omega arith, inr (omega arith, omega arith))
      (omega arith, inr (omega arith, omega arith))

past_pages_unbounded_example :
    let ids = TrackingStore.get_product_event_ids "PROD1" shipped.events in
    (get_events_by_time_range (moment 60) "PROD1" 5 50 (4294967296 + 0) 1 shipped
      ≡ (ok (rest_of 0 (history shipped.events (is_between 5 50) ids)), shipped))
    × (get_filtered_events (moment 60) "PROD1" early (4294967296 + 0) 1 shipped
        ≡ (ok (rest_of 0 (history shipped.events (matches early) ids)), shipped))
past_pages_unbounded_example =
    past_pages_unbounded (moment 60) "PROD1" 5 50 early 0 1 shipped (λ e. absurd (cc)) (omega arith)
      refl (omega arith) (omega arith, inr (omega arith, omega arith))
      (omega arith, inr (omega arith, omega arith))

abbrev administered : World
administered = record { admin = some 5; main_contract = some 9; log = []; main = opened }

-- The administration contract is the contract 4.
abbrev asked : Ctx
asked = record { timestamp = 30; current_contract_address = 4; authorized = λ _. true }

hands_over : (transfer_admin asked 5 2 administered).0 ≡ ok tt
unfolding transfer_admin require_own_admin try_main MainContract.transfer_admin require_admin
hands_over = refl

transfer_admin_sound_example :
    Administers asked 5 administered
    × (asked.authorized 2 ≡ true)
    × ((transfer_admin asked 5 2 administered).1 ≡ record administered {
      admin = some 2;
      main = record opened { admin = some 2 };
      log = admin_transferred 5 2 ∷ [];
    })
transfer_admin_sound_example = transfer_admin_sound asked 5 2 administered hands_over

abbrev later : List (Ctx × AdminRequest)
later = (asked, go_on 5) ∷ (asked, hand_over 5 2) ∷ []

moves : (MainContract.transfer_admin (moment 30) 5 2 opened).0 ≡ ok tt
unfolding MainContract.transfer_admin require_admin
moves = refl

direct_transfer_parts_example :
    let w' : World = record administered {
      main = (MainContract.transfer_admin (moment 30) 5 2 opened).1;
    } in
    (w'.main.admin ≡ some 2) × (run later w' ≡ w')
direct_transfer_parts_example =
    direct_transfer_parts (moment 30) 5 2 administered later refl (λ e. absurd (ground (arith, e)))
      (λ e. absurd (cc)) moves
