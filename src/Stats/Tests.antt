-- ===== src/Stats/Tests.antt =====
-- stats.rs on concrete inputs.
use chain_logistics.Base.{
  ℕ, ◌≡◌, refl, true, false, none, some, List, [], ◌∷◌, str_eq, if◌then◌else◌,
}
use chain_logistics.Host.Call.{Symbol, Ctx, ok}
use chain_logistics.Validation.{validate_metadata, check_values}
use chain_logistics.Authorization.State as AuthStore
use chain_logistics.Tracking.State as TrackingStore
use chain_logistics.Tracking.State.{next_event_id, index_event_by_type}
use chain_logistics.Tracking.Handlers.{MainContract, tracking_add_event}
use chain_logistics.Tracking.Handlers as TrackingHandlers
use chain_logistics.Tracking.Requests.{NewEvent, Request, setup, add_event, step, run}
use chain_logistics.Products.State.{Product, World}
use chain_logistics.Stats.{State, Sources, get_event_type_distribution, count_types}

abbrev moment : ℕ → Ctx
moment t = record { timestamp = t; current_contract_address = 9; authorized = λ _. true }

abbrev main : MainContract
main _ = some false

abbrev event : Symbol → NewEvent
event kind = record {
  by = 1;
  product = "PROD1";
  kind = kind;
  location = "Port";
  data_hash = [];
  note = "";
  metadata = [];
}

abbrev requests : List (Ctx × Request)
requests =
    (moment 1, setup 7)
    ∷ (moment 10, add_event (event "created"))
    ∷ (moment 20, add_event (event "shipped"))
    ∷ (moment 30, add_event (event "shipped"))
    ∷ []

abbrev coffee : Product
coffee = record {
  id = "PROD1";
  name = "Coffee";
  description = "";
  origin = record { location = "Huila" };
  owner = 1;
  created_at = 5;
  active = true;
  category = "Food";
  tags = [];
  certifications = [];
  media_hashes = [];
  custom = [];
  deactivation_info = [];
}

abbrev shop : World
shop = record {
  registry_address = 100;
  auth_address = 101;
  registry = record {
    auth_contract = some 101;
    transfer_contract = none;
    product = λ p. if str_eq p "PROD1" then some coffee else none;
    product_event_ids = λ _. none;
    auth = λ _ _. none;
    search_index = λ _. none;
    total_products = some 1;
    active_products = some 1;
    locks = λ _. false;
    log = [];
  };
  auth = AuthStore.empty;
  transfer = record { main_contract = none; auth_contract = none; locks = λ _. false; log = [] };
}

abbrev sources : Sources
sources = record { shop = shop; tracking = run main requests TrackingStore.empty }

abbrev ready : State
ready = record { registry_contract = some 3; tracking_contract = some 4; event_seq = none }

distribution :
    (get_event_type_distribution sources "PROD1" ready).0
    ≡ ok (("created", 1) ∷ ("shipped", 2) ∷ [])
unfolding run step TrackingHandlers.init tracking_add_event next_event_id index_event_by_type
    validate_metadata check_values get_event_type_distribution count_types
distribution = refl
