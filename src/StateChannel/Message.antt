-- ===== src/StateChannel/Message.antt =====
-- `state_message` of state_channel.rs: the bytes that both parties sign, and that they determine the
-- state.
use chain_logistics.Base.{
  ℕ, zero, suc, ◌+◌, ◌*◌, ◌/◌, ◌%◌, ◌^◌, ◌<◌, ◌≡◌, refl, ap, ◌∙◌, sym, [], ◌∷◌, ◌++◌, arith, take,
  drop,
}
use chain_logistics.Host.Call.{Bytes}
use chain_logistics.StateChannel.State.{SignedState}

-- `u64::to_be_bytes`, the `n` lowest bytes, the highest of them first.
unfoldable pub be_bytes : ℕ → ℕ → Bytes
be_bytes zero x = []
be_bytes (suc n) x = (x / 256 ^ n % 256) ∷ be_bytes n x

unfoldable pub state_message : SignedState → Bytes
state_message state =
    be_bytes 8 state.channel_id
    ++ (be_bytes 8 state.nonce ++ (be_bytes 8 state.batch_count ++ state.state_root))

-- `u64::from_be_bytes`
from_be : ℕ → Bytes → ℕ
from_be acc [] = acc
from_be acc (b ∷ bs) = from_be (acc * 256 + b) bs

-- Every `u64` is read back from its bytes, whatever follows them.
word_of_be_bytes :
    (x : ℕ) (rest : Bytes) → x < 256 ^ 8 → from_be 0 (take 8 (be_bytes 8 x ++ rest)) ≡ x
unfolding be_bytes from_be
word_of_be_bytes x rest h = omega arith

drop-be_bytes : (x : ℕ) (rest : Bytes) → drop 8 (be_bytes 8 x ++ rest) ≡ rest
unfolding be_bytes
drop-be_bytes x rest = refl

tail_eq :
    (x y : ℕ) (r q : Bytes)
    → x < 256 ^ 8
    → y < 256 ^ 8
    → be_bytes 8 x ++ r ≡ be_bytes 8 y ++ q
    → (x ≡ y) × (r ≡ q)
tail_eq x y r q hx hy e = (
  sym (word_of_be_bytes x r hx) ∙ ap (λ l. from_be 0 (take 8 l)) e ∙ word_of_be_bytes y q hy,
  sym (drop-be_bytes x r) ∙ ap (drop 8) e ∙ drop-be_bytes y q,
)

-- The numbers of a state are `u64`.
pub record IsState (state : SignedState) : Type 0 where
  pub id_fits : state.channel_id < 256 ^ 8
  pub nonce_fits : state.nonce < 256 ^ 8
  pub count_fits : state.batch_count < 256 ^ 8

-- The signed bytes determine the channel, the nonce, the number of updates and the commitment: a
-- signature on one state is no signature on a state that differs in any of these.
pub state_message_injective :
    (s t : SignedState)
    → IsState s
    → IsState t
    → state_message s ≡ state_message t
    → (s.channel_id ≡ t.channel_id)
      × (s.nonce ≡ t.nonce)
      × (s.batch_count ≡ t.batch_count)
      × (s.state_root ≡ t.state_root)
unfolding state_message
state_message_injective s t vs vt e =
    let e1 = tail_eq s.channel_id t.channel_id _ _ vs.id_fits vt.id_fits e in
    let e2 = tail_eq s.nonce t.nonce _ _ vs.nonce_fits vt.nonce_fits e1.1 in
    let e3 = tail_eq s.batch_count t.batch_count _ _ vs.count_fits vt.count_fits e2.1 in
    (e1.0, e2.0, e3.0, e3.1)
