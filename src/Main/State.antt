-- ===== src/Main/State.antt =====
-- The storage of contract.rs, by the functions of storage.rs and storage_contract.rs. Its events and
-- their indexes are laid out as those of tracking.rs, whose model they share.
use chain_logistics.Base.{Bool, false, Option, none, some, String}
use chain_logistics.Host.Call.{Address, Call, Keyed, unwrap_or}
use chain_logistics.Products.State.{Product}
use chain_logistics.Tracking.State as TrackingStore

-- The products are only read here: `register_product` of product_registry.rs writes them, where
-- one artifact has the entry points of both.
pub record State : Type 0 where
  pub admin : Option Address
  pub paused : Option Bool
  pub auth_contract : Option Address
  pub multisig_contract : Option Address
  pub timelock_contract : Option Address
  pub product : Keyed Product
  pub events : TrackingStore.State

abbrev pub empty : State
empty = record {
  admin = none;
  paused = none;
  auth_contract = none;
  multisig_contract = none;
  timelock_contract = none;
  product = λ _. none;
  events = TrackingStore.empty;
}

abbrev pub is_paused : State → Bool
is_paused s = unwrap_or s.paused false

abbrev pub set_admin : Address → State → State
set_admin admin s = record s { admin = some admin }

abbrev pub set_paused : Bool → State → State
set_paused paused s = record s { paused = some paused }

abbrev pub set_auth_contract : Address → State → State
set_auth_contract a s = record s { auth_contract = some a }

abbrev pub set_multisig_contract : Address → State → State
set_multisig_contract a s = record s { multisig_contract = some a }

abbrev pub set_timelock_contract : Address → State → State
set_timelock_contract a s = record s { timelock_contract = some a }

abbrev pub get_product : String → State → Option Product
get_product product_id s = s.product product_id

-- A function of the event storage, on the storage of the contract.
abbrev pub on_events : {A : Type 0} → Call TrackingStore.State A → Call State A
on_events m s = let (r, e) = m s.events in (r, record s { events = e })
