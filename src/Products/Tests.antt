-- ===== src/Products/Tests.antt =====
-- product_registry.rs and product_transfer.rs on concrete inputs.
use chain_logistics.Base.{
  ap, ◌≡◌, ◌≢◌, refl, true, false, none, some, String, List, [], ◌∷◌, ◌&&◌, arith, if◌then◌else◌,
}
use chain_logistics.Host.Call.{Address, Ctx, ok}
use chain_logistics.Types.{ProductConfig}
use chain_logistics.Validation.{
  validate_product_config, check_tags, check_values, validate_custom_fields,
}
use chain_logistics.Authorization.State as AuthStore
use chain_logistics.Authorization.Handlers.{
  configure_initializer, init_product_owner, update_product_owner,
}
use chain_logistics.Products.State.{Product, World, has_string, add_to_search_index, auth_client}
use chain_logistics.Products.Registry.{
  register_product, register_valid, index_product, index_word, configure_auth_contract,
  configure_transfer_contract, search_products, search_loop,
}
use chain_logistics.Products.Transfer.{pt_init, transfer_product, estimate_batch, is_movable}
use chain_logistics.Products.Requests.{
  Request, set_initializer, configure_auth, set_up_transfer, register, transfer, step, run,
}
use chain_logistics.Products.Ownership.{OwnershipInv}
use chain_logistics.Products.Moves.{
  IsTransfer, transferred, transfer_product_sound, transfer_product_succeeds,
}
use chain_logistics.Products.Invariant.{step-OwnershipInv, run-OwnershipInv}
use chain_logistics.Products.Ledger.{ledger, moves, given_to}
use chain_logistics.Products.Chunks.{IsBatchOpen}
use chain_logistics.Products.Completion.{run_chunks, recommended_chunks_complete}
use chain_logistics.Products.Bypass.{bypassed_transfers_fail}

-- The registry has address 100, the authorization contract 101, the transfer contract 102.
abbrev empty : World
empty = record {
  registry_address = 100;
  auth_address = 101;
  registry = record {
    auth_contract = none;
    transfer_contract = none;
    product = λ _. none;
    product_event_ids = λ _. none;
    auth = λ _ _. none;
    search_index = λ _. none;
    total_products = none;
    active_products = none;
    locks = λ _. false;
    log = [];
  };
  auth = AuthStore.empty;
  transfer = record { main_contract = none; auth_contract = none; locks = λ _. false; log = [] };
}

empty-OwnershipInv : OwnershipInv empty
empty-OwnershipInv p x e = absurd (ground (arith, e))

abbrev at : Address → Ctx
at contract = record { timestamp = 5; current_contract_address = contract; authorized = λ _. true }

abbrev coffee : String → ProductConfig
coffee id = record {
  id = id;
  name = "Coffee";
  description = "Beans";
  origin_location = "Huila";
  category = "Food";
  tags = [];
  certifications = [];
  media_hashes = [];
  custom = [];
}

abbrev requests : List (Ctx × Request)
requests =
    (at 101, set_initializer 100)
    ∷ (at 100, configure_auth 101)
    ∷ (at 102, set_up_transfer 100 101)
    ∷ (at 100, register 1 (coffee "PROD1"))
    ∷ (at 100, register 1 (coffee "PROD2"))
    ∷ []

abbrev shop : World
shop = run requests empty

shop-OwnershipInv : OwnershipInv shop
shop-OwnershipInv =
    run-OwnershipInv requests empty (tt, (tt, (tt, (tt, (tt, tt))))) empty-OwnershipInv

step-OwnershipInv_example : OwnershipInv (step (at 102) (transfer 1 "PROD1" 2) shop)
step-OwnershipInv_example =
    step-OwnershipInv (at 102) (transfer 1 "PROD1" 2) shop tt shop-OwnershipInv

counted :
    (shop.registry.total_products ≡ some 2)
    × (shop.auth.owner "PROD2" ≡ some 1)
    × (search_products "Coffee" 10 shop ≡ "PROD1" ∷ "PROD2" ∷ [])
unfolding run step register_product register_valid validate_product_config validate_custom_fields
    check_tags check_values index_product index_word add_to_search_index has_string
    configure_initializer init_product_owner configure_auth_contract configure_transfer_contract
    pt_init search_products search_loop
counted = (refl, refl, refl)

-- The product that is stored as "PROD1".
abbrev product_1 : Product
product_1 = record {
  id = "PROD1";
  name = "Coffee";
  description = "Beans";
  origin = record { location = "Huila" };
  owner = 1;
  created_at = 5;
  active = true;
  category = "Food";
  tags = [];
  certifications = [];
  media_hashes = [];
  custom = [];
  deactivation_info = [];
}

product_1-IsTransfer : IsTransfer (at 102) 1 "PROD1" 2 product_1 shop
unfolding run step register_product register_valid validate_product_config validate_custom_fields
    check_tags check_values configure_initializer init_product_owner configure_auth_contract
    configure_transfer_contract pt_init
product_1-IsTransfer = record {
  movable = record { stored = refl; owned = refl; active = refl; recorded = refl };
  signed = refl;
  accepted = refl;
  distinct = λ e. absurd (omega (arith, e));
  main = refl;
  auth = refl;
  trusted = refl;
}

transfer_product_succeeds_example :
    transfer_product (at 102) 1 "PROD1" 2 shop ≡ (ok tt, transferred 1 "PROD1" 2 product_1 shop)
unfolding run step register_product register_valid validate_product_config validate_custom_fields
    check_tags check_values configure_initializer init_product_owner configure_auth_contract
    configure_transfer_contract pt_init
transfer_product_succeeds_example =
    transfer_product_succeeds (at 102) 1 "PROD1" 2 product_1 shop product_1-IsTransfer
      (omega arith, omega arith) refl

transfer_product_sound_example :
    (product : Product) × IsTransfer (at 102) 1 "PROD1" 2 product shop
    × ((transfer_product (at 102) 1 "PROD1" 2 shop).1 ≡ transferred 1 "PROD1" 2 product shop)
transfer_product_sound_example =
    transfer_product_sound (at 102) 1 "PROD1" 2 shop
      (ap (λ z. z.0) transfer_product_succeeds_example)

shop-IsBatchOpen : IsBatchOpen (at 102) 1 2 100 101 shop
unfolding run step register_product register_valid validate_product_config validate_custom_fields
    check_tags check_values configure_initializer init_product_owner configure_auth_contract
    configure_transfer_contract pt_init
shop-IsBatchOpen = record {
  ready = record {
    registry_there = refl;
    auth_there = refl;
    agreed = shop-OwnershipInv;
    signed = refl;
    trusted = refl;
    distinct = λ e. absurd (omega (arith, e));
  };
  accepted = refl;
  main = refl;
  auth = refl;
  free = refl;
}

abbrev batch : List String
batch = "PROD2" ∷ "PROD9" ∷ "PROD2" ∷ "PROD1" ∷ []

recommended_chunks_complete_example :
    (w' : World) × (run_chunks
        (at 102)
        1
        batch
        2
        (estimate_batch 4).recommended_chunk_size
        (estimate_batch 4).recommended_chunk_count
        0
        shop
      ≡ some (moves 1 2 batch (ledger shop), w'))
    × ((p : String)
        → w'.registry.product p ≡ (
            if has_string batch p && is_movable 1 (shop.registry.product p)
            then given_to 2 (shop.registry.product p)
            else shop.registry.product p))
recommended_chunks_complete_example =
    recommended_chunks_complete (at 102) 100 101 1 2 batch shop shop-IsBatchOpen
      (omega arith, omega arith)

abbrev bypassed : World
bypassed = (auth_client (update_product_owner (at 101) 1 "PROD1" 2) shop).1

bypassed_transfers_fail_example : (transfer_product (at 102) 2 "PROD1" 3 bypassed).0 ≢ ok tt
unfolding run step register_product register_valid validate_product_config validate_custom_fields
    check_tags check_values configure_initializer init_product_owner configure_auth_contract
    configure_transfer_contract pt_init update_product_owner
bypassed_transfers_fail_example =
    bypassed_transfers_fail (at 101) 1 2 "PROD1" product_1 shop shop-OwnershipInv refl
      (λ e. absurd (omega (arith, e))) refl (at 102) 2 3
