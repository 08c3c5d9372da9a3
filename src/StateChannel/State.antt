-- ===== src/StateChannel/State.antt =====
-- The storage of state_channel.rs, and the types of types.rs and events.rs that it holds.
use chain_logistics.Base.{
  ℕ, Option, none, some, List, [], ◌∷◌, String, push_back, str_eq, if◌then◌else◌,
}
use chain_logistics.Host.Call.{Address, Bytes, Storage, put, unwrap_or}

-- `Open`, `Closing` and `Closed`.
pub data ChannelStatus : Type 0 where
  opened closing closed : ChannelStatus

pub record SignedState : Type 0 where
  pub channel_id : ℕ
  pub nonce : ℕ
  pub batch_count : ℕ
  pub state_root : Bytes
  pub sig_a : Bytes
  pub sig_b : Bytes

pub record Channel : Type 0 where
  pub channel_id : ℕ
  pub product_id : String
  pub party_a : Address
  pub party_b : Address
  pub pubkey_a : Bytes
  pub pubkey_b : Bytes
  pub status : ChannelStatus
  pub nonce : ℕ
  pub batch_count : ℕ
  pub state_root : Bytes
  pub dispute_window : ℕ
  pub dispute_deadline : ℕ
  pub opened_at : ℕ
  pub closed_at : ℕ

pub data ChannelEvent : Type 0 where
  channel_opened : ℕ → String → Address → Address → ℕ → ChannelEvent
  channel_state_anchored : ℕ → ℕ → ℕ → Bytes → ChannelEvent
  channel_closing : ℕ → ℕ → ℕ → ℕ → ChannelEvent
  channel_disputed : ℕ → Address → ℕ → ℕ → ℕ → ChannelEvent
  channel_finalized : ℕ → ℕ → ℕ → Bytes → ChannelEvent

pub record State : Type 0 where
  pub main_contract : Option Address
  pub channels : Storage Channel
  pub channel_seq : Option ℕ
  pub product_channels : String → Option (List ℕ)
  pub events : List ChannelEvent

abbrev pub empty : State
empty = record {
  main_contract = none;
  channels = λ _. none;
  channel_seq = none;
  product_channels = λ _. none;
  events = [];
}

abbrev pub get_channel : ℕ → State → Option Channel
get_channel id s = s.channels id

abbrev pub put_channel : Channel → State → State
put_channel ch s = record s { channels = put ch.channel_id ch s.channels }

abbrev pub index_channel_for_product : String → ℕ → State → State
index_channel_for_product product_id channel_id s =
    let ids = push_back (unwrap_or (s.product_channels product_id) []) channel_id in
    record s {
      product_channels =
          λ other. if str_eq product_id other then some ids else s.product_channels other;
    }

abbrev pub publish : ChannelEvent → State → State
publish e s = record s { events = e ∷ s.events }
