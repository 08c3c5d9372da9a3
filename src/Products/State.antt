-- ===== src/Products/State.antt =====
-- The storage of product_registry.rs and product_transfer.rs beside that of authorization.rs, and
-- the calls from one contract to another.
use chain_logistics.Base.{
  ℕ, Bool, true, false, ◌||◌, Option, none, some, String, List, [], ◌∷◌, ◌==◌, str_eq,
  if◌then◌else◌, push_back,
}
use chain_logistics.Host.Call.{
  Address, Symbol, Bytes, Ctx, Call, ok, err, trap, ◌>>=◌, ◌>>◌, gets, Keyed, put_at, unwrap_or,
}
use chain_logistics.Authorization.State as AuthStore

pub record DeactInfo : Type 0 where
  pub reason : String
  pub deactivated_at : ℕ
  pub deactivated_by : Address

pub record Origin : Type 0 where
  pub location : String

pub record Product : Type 0 where
  pub id : String
  pub name : String
  pub description : String
  pub origin : Origin
  pub owner : Address
  pub created_at : ℕ
  pub active : Bool
  pub category : String
  pub tags : List String
  pub certifications : List Bytes
  pub media_hashes : List Bytes
  pub custom : List (Symbol × String)
  pub deactivation_info : List DeactInfo

pub data ProductEvent : Type 0 where
  product_registered : String → Product → ProductEvent
  product_deactivated : String → Address → String → ProductEvent
  product_reactivated : String → Address → ProductEvent
  product_transferred : String → Address → Address → ProductEvent

abbrev pub Locks : Type 0
Locks = Symbol → Bool

pub record RegistryState : Type 0 where
  pub auth_contract : Option Address
  pub transfer_contract : Option Address
  pub product : Keyed Product
  pub product_event_ids : Keyed (List ℕ)
  pub auth : String → Address → Option Bool
  pub search_index : Keyed (List String)
  pub total_products : Option ℕ
  pub active_products : Option ℕ
  pub locks : Locks
  pub log : List ProductEvent

pub record TransferState : Type 0 where
  pub main_contract : Option Address
  pub auth_contract : Option Address
  pub locks : Locks
  pub log : List ProductEvent

-- The three contracts, with the addresses of the two that are called. There is no other contract that
-- answers to their entry points, so a call of another address panics.
pub record World : Type 0 where
  pub registry_address : Address
  pub auth_address : Address
  pub registry : RegistryState
  pub auth : AuthStore.State
  pub transfer : TransferState

abbrev pub in_registry : (RegistryState → RegistryState) → World → World
in_registry f w = record w { registry = f w.registry }

abbrev pub in_transfer : (TransferState → TransferState) → World → World
in_transfer f w = record w { transfer = f w.transfer }

-- The context of a contract that the current one calls: the caller has authorised what it asks for
-- in its own name.
abbrev pub called : Ctx → Address → Ctx
called c callee = record {
  timestamp = c.timestamp;
  current_contract_address = callee;
  authorized = λ a. a == c.current_contract_address || c.authorized a;
}

-- A call of another contract by its client panics where the callee returns an error.
abbrev pub must : {S A : Type 0} → Call S A → Call S A
must m s =
    let (r, s') = m s in elim r [ ok a ↦ (ok a, s') | err e ↦ (trap, s') | trap ↦ (trap, s') ]

-- A call of the authorization contract.
abbrev pub auth_client : {A : Type 0} → Call AuthStore.State A → Call World A
auth_client m w =
    let (r, a) = m w.auth in
    let w' : World = record w { auth = a } in
    elim r [ ok x ↦ (ok x, w') | err e ↦ (trap, w') | trap ↦ (trap, w') ]

abbrev pub call_if : Bool → Call World (Unit {0})
call_if there w = (if there then ok tt else trap, w)

-- A call of the contract at a stored address, which panics where that contract is not there.
abbrev pub at_registry : {A : Type 0} → Address → Call World A → Call World A
at_registry contract m = do found ← gets (λ w. w.registry_address); call_if (found == contract); m

abbrev pub at_auth : {A : Type 0} → Address → Call World A → Call World A
at_auth contract m = do found ← gets (λ w. w.auth_address); call_if (found == contract); m

-- What `try_get_product` of the contract at an address finds: nothing where the call fails.
abbrev pub try_get_product : Address → String → World → Option Product
try_get_product contract product_id w =
    if w.registry_address == contract then w.registry.product product_id else none

abbrev pub set_lock : Symbol → Bool → Locks → Locks
set_lock scope locked locks other = if str_eq scope other then locked else locks other

abbrev pub put_product : Product → RegistryState → RegistryState
put_product p r = record r { product = put_at p.id p r.product }

abbrev pub set_auth : String → Address → RegistryState → RegistryState
set_auth product_id actor r = record r {
  auth = λ p a.
      if str_eq product_id p then (if actor == a then some true else r.auth p a) else r.auth p a;
}

-- The products that are listed under each keyword.
abbrev pub SearchIndex : Type 0
SearchIndex = Keyed (List String)

abbrev pub get_search_index : String → SearchIndex → List String
get_search_index keyword index = unwrap_or (index keyword) []

-- `Vec::contains`
unfoldable pub has_string : List String → String → Bool
has_string [] x = false
has_string (y ∷ ys) x = str_eq y x || has_string ys x

-- The first occurrence, if there is one, is removed.
unfoldable pub remove_string : List String → String → List String
remove_string [] x = []
remove_string (y ∷ ys) x = if str_eq y x then ys else y ∷ remove_string ys x

unfoldable pub add_to_search_index : String → String → SearchIndex → SearchIndex
add_to_search_index keyword product_id index =
    let ids = get_search_index keyword index in
    if has_string ids product_id then index else put_at keyword (push_back ids product_id) index

unfoldable pub remove_from_search_index : String → String → SearchIndex → SearchIndex
remove_from_search_index keyword product_id index =
    let ids = get_search_index keyword index in
    if has_string ids product_id then put_at keyword (remove_string ids product_id) index else index

abbrev pub get_total_products : RegistryState → ℕ
get_total_products r = unwrap_or r.total_products 0

abbrev pub get_active_products : RegistryState → ℕ
get_active_products r = unwrap_or r.active_products 0
