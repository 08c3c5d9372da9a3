-- ===== src/StateChannel/Invariant.antt =====
-- The invariant of state_channel.rs: what is anchored was signed by both parties.
use chain_logistics.Base.{
  ℕ, ◌+◌, ◌≤◌, ◌<◌, ◌≡◌, ◌≢◌, ◌⊎◌, inl, inr, true, some, arith, Option-cases,
}
use chain_logistics.Host.Call.{Address, Ctx, put, unwrap_or}
use chain_logistics.StateChannel.State.{opened, closing, closed, SignedState, Channel, State}
use chain_logistics.StateChannel.Message.{state_message}
use chain_logistics.StateChannel.Handlers.{
  Outside, min_dispute_window, max_dispute_window, zero_root, channel_checkpoint, channel_close,
  channel_dispute, channel_finalize,
}

-- Both parties of the channel have signed this state, and the channel holds it.
pub record IsAnchored (o : Outside) (ch : Channel) (state : SignedState) : Type 0 where
  pub same_channel : state.channel_id ≡ ch.channel_id
  pub same_nonce : state.nonce ≡ ch.nonce
  pub same_count : state.batch_count ≡ ch.batch_count
  pub same_root : state.state_root ≡ ch.state_root
  pub signed_a : o.verifies ch.pubkey_a (state_message state) state.sig_a ≡ true
  pub signed_b : o.verifies ch.pubkey_b (state_message state) state.sig_b ≡ true

-- The channel is as `channel_open` made it.
pub record IsFresh (ch : Channel) : Type 0 where
  pub is_opened : ch.status ≡ opened
  pub no_nonce : ch.nonce ≡ 0
  pub no_count : ch.batch_count ≡ 0
  pub no_root : ch.state_root ≡ zero_root

pub record IsChannel (last i : ℕ) (ch : Channel) : Type 0 where
  pub keyed : ch.channel_id ≡ i
  pub numbered : ch.channel_id ≤ last
  pub apart : ch.party_a ≢ ch.party_b
  pub long : min_dispute_window ≤ ch.dispute_window
  pub short : ch.dispute_window ≤ max_dispute_window

abbrev pub Signed : Outside → Channel → Type 0
Signed o ch = IsFresh ch ⊎ ((state : SignedState) × IsAnchored o ch state)

abbrev pub last_channel : State → ℕ
last_channel s = unwrap_or s.channel_seq 0

abbrev pub ChannelInv : Outside → State → Type 0
ChannelInv o s =
    (i : ℕ) (ch : Channel) → s.channels i ≡ some ch → IsChannel (last_channel s) i ch × Signed o ch

-- What an operation on an existing channel does: nothing, or it changes that channel.
abbrev pub Writes : (Channel → Type 0) → (Channel → Channel) → ℕ → State → State → Type 0
Writes G change i s s' =
    (s'.channel_seq ≡ s.channel_seq)
    × ((s'.channels ≡ s.channels)
        ⊎ ((ch : Channel) × (s.channels i ≡ some ch)
            × G ch
            × (s'.channels ≡ put ch.channel_id (change ch) s.channels)))

-- The channel with a newly anchored state.
abbrev pub anchor : SignedState → Channel → Channel
anchor state ch = record ch {
  nonce = state.nonce;
  batch_count = state.batch_count;
  state_root = state.state_root;
}

-- The state names the channel and carries both signatures.
pub record MayAnchor (o : Outside) (state : SignedState) (ch : Channel) : Type 0 where
  pub same_channel : state.channel_id ≡ ch.channel_id
  pub signed_a : o.verifies ch.pubkey_a (state_message state) state.sig_a ≡ true
  pub signed_b : o.verifies ch.pubkey_b (state_message state) state.sig_b ≡ true

abbrev pub MayCheckpoint : Outside → SignedState → Channel → Type 0
MayCheckpoint o state ch = MayAnchor o state ch × (ch.status ≡ opened) × (ch.nonce < state.nonce)

abbrev pub MayClose : Outside → SignedState → Channel → Type 0
MayClose o state ch = MayAnchor o state ch × (ch.status ≡ opened) × (ch.nonce ≤ state.nonce)

abbrev pub MayDispute : Outside → Ctx → SignedState → Channel → Type 0
MayDispute o c state ch =
    MayAnchor o state ch
    × (ch.status ≡ closing)
    × (ch.nonce < state.nonce)
    × (c.timestamp ≤ ch.dispute_deadline)

abbrev pub MayFinalize : Ctx → Channel → Type 0
MayFinalize c ch = (ch.status ≡ closing) × (ch.dispute_deadline < c.timestamp)

abbrev pub with_close : Ctx → SignedState → Channel → Channel
with_close c state ch = record (anchor state ch) {
  status = closing;
  dispute_deadline = c.timestamp + ch.dispute_window;
}

abbrev pub with_dispute : Ctx → SignedState → Channel → Channel
with_dispute c state ch = record (anchor state ch) {
  dispute_deadline = c.timestamp + ch.dispute_window;
}

abbrev pub with_finalize : Ctx → Channel → Channel
with_finalize c ch = record ch { status = closed; closed_at = c.timestamp }

pub checkpoint-Writes :
    (o : Outside) (c : Ctx) (a : Address) (state : SignedState) (s : State)
    → Writes
        (MayCheckpoint o state)
        (anchor state)
        state.channel_id
        s
        (channel_checkpoint o c a state s).1
unfolding channel_checkpoint
checkpoint-Writes o c a state s = elim (Option-cases (s.channels state.channel_id)) [
  | inl m ↦ ground arith
  | inr (ch, m) ↦ ground arith
]

pub close-Writes :
    (o : Outside) (c : Ctx) (a : Address) (state : SignedState) (s : State)
    → Writes
        (MayClose o state)
        (with_close c state)
        state.channel_id
        s
        (channel_close o c a state s).1
unfolding channel_close
close-Writes o c a state s = elim (Option-cases (s.channels state.channel_id)) [
  | inl m ↦ ground arith
  | inr (ch, m) ↦ ground arith
]

pub dispute-Writes :
    (o : Outside) (c : Ctx) (a : Address) (state : SignedState) (s : State)
    → Writes
        (MayDispute o c state)
        (with_dispute c state)
        state.channel_id
        s
        (channel_dispute o c a state s).1
unfolding channel_dispute
dispute-Writes o c a state s = elim (Option-cases (s.channels state.channel_id)) [
  | inl m ↦ ground arith
  | inr (ch, m) ↦ ground arith
]

pub finalize-Writes :
    (c : Ctx) (a : Address) (i : ℕ) (s : State)
    → Writes (MayFinalize c) (with_finalize c) i s (channel_finalize c a i s).1
unfolding channel_finalize
finalize-Writes c a i s = elim (Option-cases (s.channels i)) [
  | inl m ↦ ground arith
  | inr (ch, m) ↦ ground arith
]
