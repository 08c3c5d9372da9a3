-- ===== src/Types.antt =====
-- Data types that several contracts share (smart-contract/contracts/src/types.rs).
use chain_logistics.Base.{ℕ, String, List}
use chain_logistics.Base.Int.{ℤ}
use chain_logistics.Host.Call.{Symbol, Bytes}

pub record ContractVersion : Type 0 where
  pub major : ℕ
  pub minor : ℕ
  pub patch : ℕ

pub data OracleFeedType : Type 0 where
  commodity_price fuel_price exchange_rate temperature humidity : OracleFeedType
  gps_location shipment_condition secure_timestamp compliance_status : OracleFeedType

pub record OracleFeedConfig : Type 0 where
  pub feed_id : Symbol
  pub feed_type : OracleFeedType
  pub min_value : ℤ
  pub max_value : ℤ
  pub max_age_seconds : ℕ
  pub min_sources : ℕ
  pub max_deviation_bps : ℕ

pub record ProductConfig : Type 0 where
  pub id : String
  pub name : String
  pub description : String
  pub origin_location : String
  pub category : String
  pub tags : List String
  pub certifications : List Bytes
  pub media_hashes : List Bytes
  pub custom : List (Symbol × String)
