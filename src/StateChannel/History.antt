-- ===== src/StateChannel/History.antt =====
-- What becomes of a channel of state_channel.rs over any sequence of requests.
use chain_logistics.Base.{
  ℕ, ◌≤◌, ◌≡◌, ap, ◌∙◌, inl, inr, some, String, List, [], ◌∷◌, arith, ◌==◌, Bool-cases,
}
use chain_logistics.Host.Call.{Address, Bytes, Ctx, Storage, put}
use chain_logistics.StateChannel.State.{closed, Channel, State}
use chain_logistics.StateChannel.Handlers.{
  Outside, init, channel_open, channel_checkpoint, channel_close, channel_dispute, channel_finalize,
}
use chain_logistics.StateChannel.Requests.{
  Request, setup, open_channel, checkpoint, close, dispute, finalize, step, run,
}
use chain_logistics.StateChannel.Invariant.{
  ChannelInv, Writes, anchor, MayCheckpoint, MayClose, MayDispute, MayFinalize, with_close,
  with_dispute, with_finalize, checkpoint-Writes, close-Writes, dispute-Writes, finalize-Writes,
}
use chain_logistics.StateChannel.Safety.{step-ChannelInv}

-- A later form of a channel: who may sign and how long a dispute takes are as they were, the nonce is
-- no smaller, and a closed channel is as it was.
pub record Follows (ch ch' : Channel) : Type 0 where
  pub same_id : ch'.channel_id ≡ ch.channel_id
  pub same_product : ch'.product_id ≡ ch.product_id
  pub same_party_a : ch'.party_a ≡ ch.party_a
  pub same_party_b : ch'.party_b ≡ ch.party_b
  pub same_key_a : ch'.pubkey_a ≡ ch.pubkey_a
  pub same_key_b : ch'.pubkey_b ≡ ch.pubkey_b
  pub same_window : ch'.dispute_window ≡ ch.dispute_window
  pub grows : ch.nonce ≤ ch'.nonce
  pub stays : ch.status ≡ closed → ch' ≡ ch

Follows-refl : (ch : Channel) → Follows ch ch
Follows-refl ch = ground arith

Follows-trans : (a b d : Channel) → Follows a b → Follows b d → Follows a d
Follows-trans a b d f g = record {
  same_id = g.same_id ∙ f.same_id;
  same_product = g.same_product ∙ f.same_product;
  same_party_a = g.same_party_a ∙ f.same_party_a;
  same_party_b = g.same_party_b ∙ f.same_party_b;
  same_key_a = g.same_key_a ∙ f.same_key_a;
  same_key_b = g.same_key_b ∙ f.same_key_b;
  same_window = g.same_window ∙ f.same_window;
  grows = omega (arith, f.grows, g.grows);
  stays = λ e. g.stays (ap (λ (x : Channel). x.status) (f.stays e) ∙ e) ∙ f.stays e;
}

-- The channel `j` is stored, as a later form of `ch`.
abbrev pub Continues : ℕ → Channel → State → Type 0
Continues j ch s' = (ch' : Channel) × (s'.channels j ≡ some ch') × Follows ch ch'

same-Continues :
    (s s' : State) (j : ℕ) (ch : Channel)
    → s'.channels ≡ s.channels
    → s.channels j ≡ some ch
    → Continues j ch s'
same-Continues s s' j ch e m = (ch, ap (λ (g : Storage Channel). g j) e ∙ m, Follows-refl ch)

Writes-Continues :
    (o : Outside) (G : Channel → Type 0) (change : Channel → Channel) (i j : ℕ) (s s' : State)
    (ch : Channel)
    → ChannelInv o s
    → ((x : Channel) → G x → Follows x (change x))
    → Writes G change i s s'
    → s.channels j ≡ some ch
    → Continues j ch s'
Writes-Continues o G change i j s s' ch h good (n, inl same) m = same-Continues s s' j ch same m
Writes-Continues o G change i j s s' ch h good (n, inr (x, q, g, w)) m =
    let at : s'.channels j ≡ put x.channel_id (change x) s.channels j =
      ap (λ (g : Storage Channel). g j) w in
    elim (Bool-cases (x.channel_id == j)) [
      | inl e ↦ (
        change x,
        ground (arith, at, e),
        (let f = good x g in ground (arith, (h i x q).0, q, m, e, f)),
      )
      | inr e ↦ (ch, ground (arith, at, e, m), Follows-refl ch)
    ]

open_continues :
    (o : Outside) (c : Ctx) (a : Address) (p : String) (pa pb : Address) (ka kb : Bytes) (w : ℕ)
    (s : State) (j : ℕ) (ch : Channel)
    → ChannelInv o s
    → s.channels j ≡ some ch
    → (channel_open o c a p pa pb ka kb w s).1.channels j ≡ some ch
unfolding channel_open
open_continues o c a p pa pb ka kb w s j ch h m = ground (arith, (h j ch m).0)

step-Continues :
    (o : Outside) (c : Ctx) (r : Request) (s : State) (j : ℕ) (ch : Channel)
    → ChannelInv o s
    → s.channels j ≡ some ch
    → Continues j ch (step o c r s)
unfolding step
step-Continues o c (setup main) s j ch h m =
    same-Continues s (init c main s).1 j ch (unfold init in ground arith) m
step-Continues o c (open_channel a p pa pb ka kb w) s j ch h m =
    (ch, open_continues o c a p pa pb ka kb w s j ch h m, Follows-refl ch)
step-Continues o c (checkpoint a state) s j ch h m =
    Writes-Continues o (MayCheckpoint o state) (anchor state) state.channel_id j s
      (channel_checkpoint o c a state s).1 ch h (λ x g. ground arith)
      (checkpoint-Writes o c a state s) m
step-Continues o c (close a state) s j ch h m =
    Writes-Continues o (MayClose o state) (with_close c state) state.channel_id j s
      (channel_close o c a state s).1 ch h (λ x g. ground arith) (close-Writes o c a state s) m
step-Continues o c (dispute a state) s j ch h m =
    Writes-Continues o (MayDispute o c state) (with_dispute c state) state.channel_id j s
      (channel_dispute o c a state s).1 ch h (λ x g. ground arith) (dispute-Writes o c a state s) m
step-Continues o c (finalize a i) s j ch h m =
    Writes-Continues o (MayFinalize c) (with_finalize c) i j s (channel_finalize c a i s).1 ch h
      (λ x g. ground arith) (finalize-Writes c a i s) m

-- In a state that satisfies the invariant, a stored channel stays stored under its number whatever is
-- called: its product, parties, keys and dispute window never change, its nonce never decreases,
-- and once it is closed it never changes at all.
pub run-Continues :
    (o : Outside) (rs : List (Ctx × Request)) (s : State) (j : ℕ) (ch : Channel)
    → ChannelInv o s
    → s.channels j ≡ some ch
    → Continues j ch (run o rs s)
unfolding run
run-Continues o [] s j ch h m = (ch, m, Follows-refl ch)
run-Continues o ((c, r) ∷ rs) s j ch h m =
    let (x, n, f) = step-Continues o c r s j ch h m in
    let (y, q, g) = run-Continues o rs (step o c r s) j x (step-ChannelInv o c r s h) n in
    (y, q, Follows-trans ch x y f g)
