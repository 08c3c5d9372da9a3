-- ===== src/StateChannel/Dispute.antt =====
-- The dispute window of state_channel.rs: who may answer a stale close, and until when.
use chain_logistics.Base.{
  ℕ, ◌+◌, ◌≤◌, ◌<◌, ◌≡◌, ◌≢◌, ap, ◌∙◌, ◌⊎◌, inl, inr, true, none, some, String, List, [], ◌∷◌,
  arith, ◌==◌, Bool-cases,
}
use chain_logistics.Host.Call.{Address, Bytes, Ctx, Storage, put, ok}
use chain_logistics.StateChannel.State.{closing, SignedState, Channel, State}
use chain_logistics.StateChannel.Handlers.{
  Outside, init, channel_open, channel_checkpoint, channel_close, channel_dispute, channel_finalize,
  max_dispute_window,
}
use chain_logistics.StateChannel.Requests.{
  Request, setup, open_channel, checkpoint, close, dispute, finalize, step, run,
}
use chain_logistics.StateChannel.Invariant.{
  ChannelInv, Writes, MayAnchor, anchor, MayCheckpoint, MayClose, MayDispute, MayFinalize,
  with_close, with_dispute, with_finalize, checkpoint-Writes, close-Writes, dispute-Writes,
  finalize-Writes,
}
use chain_logistics.StateChannel.Safety.{step-ChannelInv}

-- Who calls is a party of the channel, and has signed the call.
pub record IsParticipant (c : Ctx) (ch : Channel) (a : Address) : Type 0 where
  pub is_party : (a ≡ ch.party_a) ⊎ (a ≡ ch.party_b)
  pub authorized : c.authorized a ≡ true

-- A party of a closing channel that holds a newer state, signed by both, succeeds with a dispute until
-- the deadline, whether or not the main contract is paused: the newer state is then anchored and
-- the window starts anew.
pub dispute_succeeds :
    (o : Outside) (c : Ctx) (a : Address) (state : SignedState) (s : State) (ch : Channel)
    → ChannelInv o s
    → s.main_contract ≢ none
    → s.channels state.channel_id ≡ some ch
    → IsParticipant c ch a
    → MayAnchor o state ch
    → ch.status ≡ closing
    → ch.nonce < state.nonce
    → c.timestamp ≤ ch.dispute_deadline
    → c.timestamp + max_dispute_window ≤ 18446744073709551615
    → let s' = channel_dispute o c a state s in
      (s'.0 ≡ ok tt) × (s'.1.channels state.channel_id ≡ some (with_dispute c state ch))
unfolding channel_dispute
dispute_succeeds o c a state s ch h i m p g st n d b = ground (arith, (h state.channel_id ch m).0)

-- The channel `j` is closing with dispute window `w`, and its deadline is at least `w` after `since`.
pub record IsWaiting (since w : ℕ) (ch : Channel) : Type 0 where
  pub is_closing : ch.status ≡ closing
  pub window : ch.dispute_window ≡ w
  pub waits : since + w ≤ ch.dispute_deadline

abbrev pub IsClosing : ℕ → ℕ → ℕ → State → Type 0
IsClosing since w j s = (ch : Channel) × (s.channels j ≡ some ch) × IsWaiting since w ch

abbrev pub IsWithin : ℕ → ℕ → List (Ctx × Request) → Type 0
IsWithin first last [] = Unit
IsWithin first last ((c, r) ∷ rs) =
    (first ≤ c.timestamp) × (c.timestamp ≤ last) × IsWithin first last rs

Writes-waits :
    (o : Outside) (G : Channel → Type 0) (change : Channel → Channel) (since w i j : ℕ)
    (s s' : State)
    → ChannelInv o s
    → ((x : Channel) → G x → IsWaiting since w x → IsWaiting since w (change x))
    → Writes G change i s s'
    → IsClosing since w j s
    → IsClosing since w j s'
Writes-waits o G change since w i j s s' h good (n, inl same) (ch, m, v) =
    (ch, ap (λ (g : Storage Channel). g j) same ∙ m, v)
Writes-waits o G change since w i j s s' h good (n, inr (x, q, g, e)) (ch, m, v) =
    let at : s'.channels j ≡ put x.channel_id (change x) s.channels j =
      ap (λ (g : Storage Channel). g j) e in
    elim (Bool-cases (x.channel_id == j)) [
      | inl t ↦ (
        change x,
        ground (arith, at, t),
        (let f = good x g in ground (arith, (h i x q).0, q, m, t, f)),
      )
      | inr t ↦ (ch, ground (arith, at, t, m), v)
    ]

open_waits :
    (o : Outside) (c : Ctx) (a : Address) (p : String) (pa pb : Address) (ka kb : Bytes) (w j : ℕ)
    (s : State) (ch : Channel)
    → ChannelInv o s
    → s.channels j ≡ some ch
    → (channel_open o c a p pa pb ka kb w s).1.channels j ≡ some ch
unfolding channel_open
open_waits o c a p pa pb ka kb w j s ch h m = ground (arith, (h j ch m).0)

step_waits :
    (o : Outside) (c : Ctx) (r : Request) (since w j : ℕ) (s : State)
    → ChannelInv o s
    → since ≤ c.timestamp
    → c.timestamp ≤ since + w
    → IsClosing since w j s
    → IsClosing since w j (step o c r s)
unfolding step
step_waits o c (setup main) since w j s h lo hi (ch, m, v) = (ch, (unfold init in ground arith), v)
step_waits o c (open_channel a p pa pb ka kb n) since w j s h lo hi (ch, m, v) =
    (ch, open_waits o c a p pa pb ka kb n j s ch h m, v)
step_waits o c (checkpoint a state) since w j s h lo hi v =
    Writes-waits o (MayCheckpoint o state) (anchor state) since w state.channel_id j s
      (channel_checkpoint o c a state s).1 h (λ x g u. ground arith)
      (checkpoint-Writes o c a state s) v
step_waits o c (close a state) since w j s h lo hi v =
    Writes-waits o (MayClose o state) (with_close c state) since w state.channel_id j s
      (channel_close o c a state s).1 h (λ x g u. ground arith) (close-Writes o c a state s) v
step_waits o c (dispute a state) since w j s h lo hi v =
    Writes-waits o (MayDispute o c state) (with_dispute c state) since w state.channel_id j s
      (channel_dispute o c a state s).1 h (λ x g u. ground arith) (dispute-Writes o c a state s) v
step_waits o c (finalize a i) since w j s h lo hi v =
    Writes-waits o (MayFinalize c) (with_finalize c) since w i j s (channel_finalize c a i s).1 h
      (λ x g u. ground arith) (finalize-Writes c a i s) v

run_waits :
    (o : Outside) (rs : List (Ctx × Request)) (since w j : ℕ) (s : State)
    → ChannelInv o s
    → IsWithin since (since + w) rs
    → IsClosing since w j s
    → IsClosing since w j (run o rs s)
unfolding run
run_waits o [] since w j s h t v = v
run_waits o ((c, r) ∷ rs) since w j s h (lo, hi, t) v =
    run_waits o rs since w j (step o c r s) (step-ChannelInv o c r s h) t
      (step_waits o c r since w j s h lo hi v)

close_waits :
    (o : Outside) (c : Ctx) (a : Address) (state : SignedState) (s : State) (ch : Channel)
    → ChannelInv o s
    → s.channels state.channel_id ≡ some ch
    → (channel_close o c a state s).0 ≡ ok tt
    → IsClosing c.timestamp ch.dispute_window state.channel_id (channel_close o c a state s).1
unfolding channel_close
close_waits o c a state s ch h m e =
    (with_close c state ch, ground (arith, (h state.channel_id ch m).0), ground arith)

close-ChannelInv :
    (o : Outside) (c : Ctx) (a : Address) (state : SignedState) (s : State)
    → ChannelInv o s
    → ChannelInv o (channel_close o c a state s).1
close-ChannelInv o c a state s h = unfold step in step-ChannelInv o c (close a state) s h

-- In a state that satisfies the invariant, a channel that `channel_close` has closed stays closing, so
-- open to disputes, under every sequence of requests that are made from the time of that call to
-- the end of the channel's dispute window, both included: no request finalizes it, and no dispute
-- moves the deadline before the end of that first window.
pub window_stays_open :
    (o : Outside) (c : Ctx) (a : Address) (state : SignedState) (rs : List (Ctx × Request))
    (s : State) (ch : Channel)
    → ChannelInv o s
    → s.channels state.channel_id ≡ some ch
    → (channel_close o c a state s).0 ≡ ok tt
    → IsWithin c.timestamp (c.timestamp + ch.dispute_window) rs
    → IsClosing c.timestamp ch.dispute_window state.channel_id
        (run o rs (channel_close o c a state s).1)
window_stays_open o c a state rs s ch h m e t =
    run_waits o rs c.timestamp ch.dispute_window state.channel_id (channel_close o c a state s).1
      (close-ChannelInv o c a state s h) t (close_waits o c a state s ch h m e)
