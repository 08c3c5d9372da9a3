-- ===== src/StateChannel/Safety.antt =====
-- Every request to state_channel.rs keeps the invariant.
use chain_logistics.Base.{ℕ, ◌≡◌, refl, sym, ap, ◌∙◌, inl, inr, String, List, [], ◌∷◌, arith}
use chain_logistics.Host.Call.{Address, Bytes, Ctx, Storage}
use chain_logistics.StateChannel.State.{SignedState, Channel, State, empty}
use chain_logistics.StateChannel.Handlers.{
  Outside, init, channel_open, channel_checkpoint, channel_close, channel_dispute, channel_finalize,
}
use chain_logistics.StateChannel.Requests.{
  Request, setup, open_channel, checkpoint, close, dispute, finalize, step, run,
}
use chain_logistics.StateChannel.Invariant.{
  IsAnchored, IsChannel, Signed, ChannelInv, Writes, last_channel, anchor, MayAnchor, MayCheckpoint,
  MayClose, MayDispute, MayFinalize, with_close, with_dispute, with_finalize, checkpoint-Writes,
  close-Writes, dispute-Writes, finalize-Writes,
}

Writes-ChannelInv :
    (o : Outside) (G : Channel → Type 0) (change : Channel → Channel) (i : ℕ) (s s' : State)
    → ChannelInv o s
    → ((ch : Channel)
        → IsChannel (last_channel s) i ch
        → Signed o ch
        → G ch
        → IsChannel (last_channel s) i (change ch) × Signed o (change ch))
    → Writes G change i s s'
    → ChannelInv o s'
Writes-ChannelInv o G change i s s' h good (n, inl same) j q e =
    rw n (h j q (sym (ap (λ (g : Storage Channel). g j) same) ∙ e))
Writes-ChannelInv o G change i s s' h good (n, inr (ch, m, g, w)) j q e =
    let v = h i ch m in
    let new = good ch v.0 v.1 g in
    rw n (ground (arith, h j q, v.0, new, sym (ap (λ (g : Storage Channel). g j) w) ∙ e))

anchor-Signed :
    (o : Outside) (state : SignedState) (ch : Channel)
    → MayAnchor o state ch
    → IsAnchored o (anchor state ch) state
anchor-Signed o state ch g = record {
  same_channel = g.same_channel;
  same_nonce = refl;
  same_count = refl;
  same_root = refl;
  signed_a = g.signed_a;
  signed_b = g.signed_b;
}

open-ChannelInv :
    (o : Outside) (c : Ctx) (a : Address) (p : String) (pa pb : Address) (ka kb : Bytes) (w : ℕ)
    (s : State)
    → ChannelInv o s
    → ChannelInv o (channel_open o c a p pa pb ka kb w s).1
unfolding channel_open
open-ChannelInv o c a p pa pb ka kb w s h j q = ground (arith, h j q)

checkpoint-good :
    (o : Outside) (state : SignedState) (last i : ℕ) (ch : Channel)
    → IsChannel last i ch
    → MayAnchor o state ch
    → IsChannel last i (anchor state ch) × Signed o (anchor state ch)
checkpoint-good o state last i ch v g = (ground arith, inr (state, anchor-Signed o state ch g))

close-good :
    (o : Outside) (c : Ctx) (state : SignedState) (last i : ℕ) (ch : Channel)
    → IsChannel last i ch
    → MayAnchor o state ch
    → IsChannel last i (with_close c state ch) × Signed o (with_close c state ch)
close-good o c state last i ch v g =
    let a = anchor-Signed o state ch g in (ground arith, inr (state, ground arith))

dispute-good :
    (o : Outside) (c : Ctx) (state : SignedState) (last i : ℕ) (ch : Channel)
    → IsChannel last i ch
    → MayAnchor o state ch
    → IsChannel last i (with_dispute c state ch) × Signed o (with_dispute c state ch)
dispute-good o c state last i ch v g =
    let a = anchor-Signed o state ch g in (ground arith, inr (state, ground arith))

-- A closing channel is not as `channel_open` made it, so a state is anchored in it.
finalize-good :
    (o : Outside) (c : Ctx) (last i : ℕ) (ch : Channel)
    → IsChannel last i ch
    → Signed o ch
    → MayFinalize c ch
    → IsChannel last i (with_finalize c ch) × Signed o (with_finalize c ch)
finalize-good o c last i ch v (inl f) g = absurd (ground arith)
finalize-good o c last i ch v (inr (state, a)) g = (ground arith, inr (state, ground arith))

same-ChannelInv :
    (o : Outside) (s s' : State)
    → s'.channels ≡ s.channels
    → s'.channel_seq ≡ s.channel_seq
    → ChannelInv o s
    → ChannelInv o s'
same-ChannelInv o s s' e n h =
    Writes-ChannelInv o (λ _. Unit) (λ ch. ch) 0 s s' h (λ ch v w _. (v, w)) (n, inl e)

-- Every request, successful or not, keeps the invariant: every channel lies under its own number,
-- below the next one, has two different parties and a dispute window between a minute and a week;
-- and it is as it was opened, or the state it holds names this channel and both parties have
-- signed it.
pub step-ChannelInv :
    (o : Outside) (c : Ctx) (r : Request) (s : State) → ChannelInv o s → ChannelInv o (step o c r s)
unfolding step
step-ChannelInv o c (setup main) s h =
    same-ChannelInv o s (init c main s).1 (unfold init in ground arith)
      (unfold init in ground arith) h
step-ChannelInv o c (open_channel a p pa pb ka kb w) s h = open-ChannelInv o c a p pa pb ka kb w s h
step-ChannelInv o c (checkpoint a state) s h =
    Writes-ChannelInv o (MayCheckpoint o state) (anchor state) state.channel_id s
      (channel_checkpoint o c a state s).1 h
      (λ ch v _ g. checkpoint-good o state (last_channel s) state.channel_id ch v g.0)
      (checkpoint-Writes o c a state s)
step-ChannelInv o c (close a state) s h =
    Writes-ChannelInv o (MayClose o state) (with_close c state) state.channel_id s
      (channel_close o c a state s).1 h
      (λ ch v _ g. close-good o c state (last_channel s) state.channel_id ch v g.0)
      (close-Writes o c a state s)
step-ChannelInv o c (dispute a state) s h =
    Writes-ChannelInv o (MayDispute o c state) (with_dispute c state) state.channel_id s
      (channel_dispute o c a state s).1 h
      (λ ch v _ g. dispute-good o c state (last_channel s) state.channel_id ch v g.0)
      (dispute-Writes o c a state s)
step-ChannelInv o c (finalize a i) s h =
    Writes-ChannelInv o (MayFinalize c) (with_finalize c) i s (channel_finalize c a i s).1 h
      (finalize-good o c (last_channel s) i) (finalize-Writes c a i s)

pub run-ChannelInv :
    (o : Outside) (rs : List (Ctx × Request)) (s : State)
    → ChannelInv o s
    → ChannelInv o (run o rs s)
unfolding run
run-ChannelInv o [] s h = h
run-ChannelInv o ((c, r) ∷ rs) s h = run-ChannelInv o rs (step o c r s) (step-ChannelInv o c r s h)

pub empty-ChannelInv : (o : Outside) → ChannelInv o empty
empty-ChannelInv o i ch e = absurd (cc)
