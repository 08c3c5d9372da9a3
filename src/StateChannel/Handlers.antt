-- ===== src/StateChannel/Handlers.antt =====
-- The entry points of state_channel.rs, with the helpers they share.
use chain_logistics.Base.{
  ℕ, ◌*◌, Bool, true, false, not, ◌&&◌, Option, none, some, String, List, [], ◌∷◌, ltb, leb, ◌==◌,
  if◌then◌else◌,
}
use chain_logistics.Host.Errors.{Error}
use chain_logistics.Host.Call.{
  Address, Bytes, Ctx, Call, ok, trap, ◌>>=◌, ◌>>◌, pure, fail_if, ok_or, gets, modify,
  require_auth, checked_add_u64, unwrap_or,
}
use chain_logistics.Validation.{
  validate_contract_address, validate_distinct_addresses, non_empty, max_len, max_product_id_len,
}
use chain_logistics.StateChannel.State.{
  ChannelStatus, opened, closing, closed, SignedState, Channel, channel_opened,
  channel_state_anchored, channel_closing, channel_disputed, channel_finalized, State, get_channel,
  put_channel, index_channel_for_product, publish,
}
use chain_logistics.StateChannel.Message.{state_message}

-- What the contract takes from outside: whether a signature by a key fits a message
-- (`ed25519_verify`, which panics if not), and the main contract's answer to `is_paused`, none if
-- the call fails.
pub record Outside : Type 0 where
  pub verifies : Bytes → Bytes → Bytes → Bool
  pub main_is_paused : Address → Option Bool

abbrev pub min_dispute_window : ℕ
min_dispute_window = 60

abbrev pub max_dispute_window : ℕ
max_dispute_window = 7 * 24 * 60 * 60

abbrev pub is_open : ChannelStatus → Bool
is_open opened = true
is_open _ = false

abbrev pub is_closing : ChannelStatus → Bool
is_closing closing = true
is_closing _ = false

abbrev pub is_closed : ChannelStatus → Bool
is_closed closed = true
is_closed _ = false

-- `[0u8; 32]`
abbrev pub zero_root : Bytes
zero_root =
    0 ∷ 0 ∷ 0 ∷ 0 ∷ 0 ∷ 0 ∷ 0 ∷ 0 ∷ 0 ∷ 0 ∷ 0 ∷ 0 ∷ 0 ∷ 0 ∷ 0 ∷ 0 ∷ 0 ∷ 0 ∷ 0 ∷ 0 ∷ 0 ∷ 0 ∷ 0 ∷ 0
    ∷ 0 ∷ 0 ∷ 0 ∷ 0 ∷ 0 ∷ 0 ∷ 0 ∷ 0 ∷ []

abbrev pub require_init : Call State (Unit {0})
require_init = do
  fail_if (elim (← gets λ s. s.main_contract) [ none ↦ true | some _ ↦ false ])
      Error.not_initialized

-- A cross-contract query.
abbrev pub query_paused : Outside → Address → Call State Bool
query_paused o main s = elim (o.main_is_paused main) [ none ↦ (trap, s) | some p ↦ (ok p, s) ]

abbrev pub require_not_paused : Outside → Call State (Unit {0})
require_not_paused o = do
  main ← ok_or (← gets λ s. s.main_contract) Error.not_initialized
  paused ← query_paused o main
  fail_if paused Error.contract_paused

abbrev pub next_channel_id : Call State ℕ
next_channel_id = do
  current ← gets (λ s. unwrap_or s.channel_seq 0)
  next ← ok_or (checked_add_u64 current 1) Error.arithmetic_overflow
  modify (λ s. record s { channel_seq = some next })
  pure next

abbrev pub ed25519_verify : Outside → Bytes → Bytes → Bytes → Call State (Unit {0})
ed25519_verify o key message signature s =
    (if o.verifies key message signature then ok tt else trap, s)

unfoldable pub verify_signed_state : Outside → Channel → SignedState → Call State (Unit {0})
verify_signed_state o channel state = do
  fail_if (not (state.channel_id == channel.channel_id)) Error.channel_mismatch
  ed25519_verify o channel.pubkey_a (state_message state) state.sig_a
  ed25519_verify o channel.pubkey_b (state_message state) state.sig_b

abbrev pub require_participant : Channel → Address → Call State (Unit {0})
require_participant channel actor =
    fail_if (not (actor == channel.party_a) && not (actor == channel.party_b))
      Error.not_channel_participant

unfoldable pub init : Ctx → Address → Call State (Unit {0})
init c main_contract = do
  fail_if (elim (← gets λ s. s.main_contract) [ none ↦ false | some _ ↦ true ])
      Error.already_initialized
  validate_contract_address c main_contract
  modify (λ s. record s { main_contract = some main_contract })

unfoldable pub channel_open :
    Outside → Ctx → Address → String → Address → Address → Bytes → Bytes → ℕ → Call State ℕ
channel_open o c opener product_id party_a party_b pubkey_a pubkey_b dispute_window = do
  require_init
  require_not_paused o
  require_auth c opener
  fail_if (not (opener == party_a) && not (opener == party_b)) Error.not_channel_participant
  validate_distinct_addresses party_a party_b
  non_empty product_id
  max_len product_id max_product_id_len
  fail_if (ltb dispute_window min_dispute_window) Error.dispute_window_too_short
  fail_if (ltb max_dispute_window dispute_window) Error.dispute_window_too_long
  channel_id ← next_channel_id
  modify (
      put_channel (record {
        channel_id = channel_id;
        product_id = product_id;
        party_a = party_a;
        party_b = party_b;
        pubkey_a = pubkey_a;
        pubkey_b = pubkey_b;
        status = opened;
        nonce = 0;
        batch_count = 0;
        state_root = zero_root;
        dispute_window = dispute_window;
        dispute_deadline = 0;
        opened_at = c.timestamp;
        closed_at = 0;
      }))
  modify (index_channel_for_product product_id channel_id)
  modify (publish (channel_opened channel_id product_id party_a party_b dispute_window))
  pure channel_id

unfoldable pub channel_checkpoint : Outside → Ctx → Address → SignedState → Call State (Unit {0})
unfolding verify_signed_state
channel_checkpoint o c submitter state = do
  require_init
  require_not_paused o
  require_auth c submitter
  channel ← ok_or (← gets (get_channel state.channel_id)) Error.channel_not_found
  require_participant channel submitter
  fail_if (not (is_open channel.status)) Error.channel_not_open
  fail_if (leb state.nonce channel.nonce) Error.stale_state_nonce
  verify_signed_state o channel state
  modify (
      put_channel (record channel {
        nonce = state.nonce;
        batch_count = state.batch_count;
        state_root = state.state_root;
      }))
  modify (
      publish
        (channel_state_anchored channel.channel_id state.nonce state.batch_count state.state_root))

unfoldable pub channel_close : Outside → Ctx → Address → SignedState → Call State (Unit {0})
unfolding verify_signed_state
channel_close o c submitter state = do
  require_init
  require_not_paused o
  require_auth c submitter
  channel ← ok_or (← gets (get_channel state.channel_id)) Error.channel_not_found
  require_participant channel submitter
  fail_if (is_closing channel.status) Error.channel_not_open
  fail_if (is_closed channel.status) Error.channel_already_closed
  fail_if (ltb state.nonce channel.nonce) Error.stale_state_nonce
  verify_signed_state o channel state
  deadline ← ok_or (checked_add_u64 c.timestamp channel.dispute_window) Error.arithmetic_overflow
  modify (
      put_channel (record channel {
        nonce = state.nonce;
        batch_count = state.batch_count;
        state_root = state.state_root;
        status = closing;
        dispute_deadline = deadline;
      }))
  modify (publish (channel_closing channel.channel_id state.nonce state.batch_count deadline))

unfoldable pub channel_dispute : Outside → Ctx → Address → SignedState → Call State (Unit {0})
unfolding verify_signed_state
channel_dispute o c challenger state = do
  require_init
  require_auth c challenger
  channel ← ok_or (← gets (get_channel state.channel_id)) Error.channel_not_found
  require_participant channel challenger
  fail_if (not (is_closing channel.status)) Error.channel_not_closing
  fail_if (ltb channel.dispute_deadline c.timestamp) Error.dispute_period_expired
  fail_if (leb state.nonce channel.nonce) Error.stale_state_nonce
  verify_signed_state o channel state
  deadline ← ok_or (checked_add_u64 c.timestamp channel.dispute_window) Error.arithmetic_overflow
  modify (
      put_channel (record channel {
        nonce = state.nonce;
        batch_count = state.batch_count;
        state_root = state.state_root;
        dispute_deadline = deadline;
      }))
  modify
      (publish (channel_disputed channel.channel_id challenger channel.nonce state.nonce deadline))

unfoldable pub channel_finalize : Ctx → Address → ℕ → Call State (Unit {0})
channel_finalize c submitter channel_id = do
  require_init
  require_auth c submitter
  channel ← ok_or (← gets (get_channel channel_id)) Error.channel_not_found
  require_participant channel submitter
  fail_if (not (is_closing channel.status)) Error.channel_not_closing
  fail_if (leb c.timestamp channel.dispute_deadline) Error.dispute_period_active
  modify (put_channel (record channel { status = closed; closed_at = c.timestamp }))
  modify (
      publish
        (channel_finalized channel.channel_id channel.nonce channel.batch_count channel.state_root))

unfoldable pub channel_get : ℕ → Call State Channel
channel_get channel_id = do ok_or (← gets (get_channel channel_id)) Error.channel_not_found

unfoldable pub channel_status : ℕ → Call State ChannelStatus
channel_status channel_id = do
  channel ← ok_or (← gets (get_channel channel_id)) Error.channel_not_found
  pure channel.status

unfoldable pub channel_nonce : ℕ → Call State ℕ
channel_nonce channel_id = do
  channel ← ok_or (← gets (get_channel channel_id)) Error.channel_not_found
  pure channel.nonce

unfoldable pub channel_list_by_product : String → Call State (List ℕ)
channel_list_by_product product_id = gets (λ s. unwrap_or (s.product_channels product_id) [])
