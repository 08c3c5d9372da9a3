-- ===== src/StateChannel/Tests.antt =====
-- state_channel.rs on concrete inputs.
use chain_logistics.Base.{
  ℕ, ◌≡◌, ◌≢◌, refl, inr, Bool, true, false, none, some, List, [], ◌∷◌, ◌==◌, ◌<◌, ◌^◌, arith,
}
use chain_logistics.Host.Errors.{Error}
use chain_logistics.Host.Call.{Ctx, Bytes, ok, err, trap}
use chain_logistics.StateChannel.State.{opened, closing, SignedState, Channel, State, empty}
use chain_logistics.StateChannel.Message.{state_message, IsState, state_message_injective}
use chain_logistics.StateChannel.Handlers.{
  Outside, zero_root, init, channel_open, channel_checkpoint, channel_close, channel_dispute,
  channel_finalize, verify_signed_state,
}
use chain_logistics.StateChannel.Requests.{
  Request, setup, open_channel, checkpoint, close, dispute, finalize, step, run,
}
use chain_logistics.StateChannel.Invariant.{ChannelInv, with_dispute}
use chain_logistics.StateChannel.Safety.{step-ChannelInv, run-ChannelInv, empty-ChannelInv}
use chain_logistics.StateChannel.History.{Continues, run-Continues}
use chain_logistics.StateChannel.Dispute.{IsClosing, dispute_succeeds, window_stays_open}

abbrev moment : ℕ → Ctx
moment t = record { timestamp = t; current_contract_address = 9; authorized = λ _. true }

-- A signature starts with the first byte of the key.
abbrev same_head : Bytes → Bytes → Bool
same_head (k ∷ _) (x ∷ _) = k == x
same_head _ _ = false

abbrev outside : Outside
outside = record { verifies = λ key _ sig. same_head key sig; main_is_paused = λ _. some false }

abbrev signed : ℕ → ℕ → SignedState
signed n count = record {
  channel_id = 1;
  nonce = n;
  batch_count = count;
  state_root = zero_root;
  sig_a = 10 ∷ [];
  sig_b = 20 ∷ [];
}

abbrev stored : Channel
stored = record {
  channel_id = 1;
  product_id = "P";
  party_a = 1;
  party_b = 2;
  pubkey_a = 10 ∷ [];
  pubkey_b = 20 ∷ [];
  status = closing;
  nonce = 3;
  batch_count = 7;
  state_root = zero_root;
  dispute_window = 60;
  dispute_deadline = 1160;
  opened_at = 1000;
  closed_at = 0;
}

abbrev requests : List (Ctx × Request)
requests =
    (moment 1000, setup 7)
    ∷ (moment 1000, open_channel 1 "P" 1 2 (10 ∷ []) (20 ∷ []) 60)
    ∷ (moment 1050, checkpoint 2 (signed 3 7))
    ∷ []

abbrev open_state : State
open_state = run outside requests empty

abbrev closing_state : State
closing_state = (channel_close outside (moment 1100) 1 (signed 3 7) open_state).1

open_state-ChannelInv : ChannelInv outside open_state
open_state-ChannelInv = run-ChannelInv outside requests empty (empty-ChannelInv outside)

closing_state-ChannelInv : ChannelInv outside closing_state
closing_state-ChannelInv =
    unfold step in
    step-ChannelInv outside (moment 1100) (close 1 (signed 3 7)) open_state open_state-ChannelInv

closes :
    ((channel_close outside (moment 1100) 1 (signed 3 7) open_state).0 ≡ ok tt)
    × (closing_state.channels 1 ≡ some stored)
unfolding run step init channel_open channel_checkpoint channel_close verify_signed_state
closes = (refl, refl)

-- A forged signature traps, and the window decides which of dispute and finalize succeeds.
window :
    ((channel_dispute outside (moment 1110) 2 (record (signed 4 9) { sig_a = [] }) closing_state).0
      ≡ trap)
    × ((channel_dispute outside (moment 1160) 2 (signed 4 9) closing_state).0 ≡ ok tt)
    × ((channel_finalize (moment 1160) 2 1 closing_state).0 ≡ err Error.dispute_period_active)
    × ((channel_dispute outside (moment 1161) 2 (signed 4 9) closing_state).0
        ≡ err Error.dispute_period_expired)
    × ((channel_finalize (moment 1161) 2 1 closing_state).0 ≡ ok tt)
unfolding run step init channel_open channel_checkpoint channel_close channel_dispute
    channel_finalize verify_signed_state
window = (refl, refl, refl, refl, refl)

step-ChannelInv_example :
    ChannelInv outside (step outside (moment 1100) (close 1 (signed 3 7)) open_state)
step-ChannelInv_example =
    step-ChannelInv outside (moment 1100) (close 1 (signed 3 7)) open_state open_state-ChannelInv

abbrev later : List (Ctx × Request)
later = (moment 1110, dispute 2 (signed 4 9)) ∷ (moment 1150, finalize 1 1) ∷ []

run-Continues_example : Continues 1 stored (run outside later closing_state)
run-Continues_example =
    run-Continues outside later closing_state 1 stored closing_state-ChannelInv closes.1

main_is_set : closing_state.main_contract ≢ none
unfolding run step init channel_open channel_checkpoint channel_close verify_signed_state
main_is_set e = absurd (cc)

dispute_succeeds_example :
    let s' = channel_dispute outside (moment 1160) 2 (signed 4 9) closing_state in
    (s'.0 ≡ ok tt) × (s'.1.channels 1 ≡ some (with_dispute (moment 1160) (signed 4 9) stored))
dispute_succeeds_example =
    dispute_succeeds outside (moment 1160) 2 (signed 4 9) closing_state stored
      closing_state-ChannelInv main_is_set closes.1
      (record { is_party = inr refl; authorized = refl })
      (record { same_channel = refl; signed_a = refl; signed_b = refl }) refl (omega arith)
      (omega arith) (omega arith)

abbrev opened_channel : Channel
opened_channel = record stored { status = opened; dispute_deadline = 0 }

is_open_state : open_state.channels 1 ≡ some opened_channel
unfolding run step init channel_open channel_checkpoint verify_signed_state
is_open_state = refl

window_stays_open_example : IsClosing 1100 60 1 (run outside later closing_state)
window_stays_open_example =
    window_stays_open outside (moment 1100) 1 (signed 3 7) later open_state opened_channel
      open_state-ChannelInv is_open_state closes.0
      (omega arith, omega arith, (omega arith, omega arith, tt))

signed-IsState : (n : ℕ) → n < 256 ^ 8 → IsState (signed n 7)
signed-IsState n h = record { id_fits = omega arith; nonce_fits = h; count_fits = omega arith }

abbrev resigned : SignedState
resigned = record (signed 3 7) { sig_a = 11 ∷ [] }

same_message : state_message (signed 3 7) ≡ state_message resigned
unfolding state_message
same_message = refl

state_message_injective_example :
    ((signed 3 7).channel_id ≡ resigned.channel_id)
    × ((signed 3 7).nonce ≡ resigned.nonce)
    × ((signed 3 7).batch_count ≡ resigned.batch_count)
    × ((signed 3 7).state_root ≡ resigned.state_root)
state_message_injective_example =
    state_message_injective (signed 3 7) resigned (signed-IsState 3 (omega arith))
      (record { id_fits = omega arith; nonce_fits = omega arith; count_fits = omega arith })
      same_message
