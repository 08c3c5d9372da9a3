-- ===== src/StateChannel/Requests.antt =====
-- Sequences of invocations of state_channel.rs's entry points, by any callers at any times.
use chain_logistics.Base.{ℕ, Option, String, List, [], ◌∷◌}
use chain_logistics.Host.Errors.{Error}
use chain_logistics.Host.Call.{Address, Bytes, Ctx, error_of}
use chain_logistics.StateChannel.State.{SignedState, State}
use chain_logistics.StateChannel.Handlers.{
  Outside, init, channel_open, channel_checkpoint, channel_close, channel_dispute, channel_finalize,
}

pub data Request : Type 0 where
  setup : Address → Request
  open_channel : Address → String → Address → Address → Bytes → Bytes → ℕ → Request
  checkpoint : Address → SignedState → Request
  close : Address → SignedState → Request
  dispute : Address → SignedState → Request
  finalize : Address → ℕ → Request

-- The state that a call leaves, also where it fails.
unfoldable pub step : Outside → Ctx → Request → State → State
step o c (setup main) s = (init c main s).1
step o c (open_channel a p pa pb ka kb w) s = (channel_open o c a p pa pb ka kb w s).1
step o c (checkpoint a state) s = (channel_checkpoint o c a state s).1
step o c (close a state) s = (channel_close o c a state s).1
step o c (dispute a state) s = (channel_dispute o c a state s).1
step o c (finalize a i) s = (channel_finalize c a i s).1

unfoldable pub run : Outside → List (Ctx × Request) → State → State
run o [] s = s
run o ((c, r) ∷ rs) s = run o rs (step o c r s)

-- The error code that a call returns.
unfoldable pub failure : Outside → Ctx → Request → State → Option Error
failure o c (setup main) s = error_of (init c main s).0
failure o c (open_channel a p pa pb ka kb w) s = error_of (channel_open o c a p pa pb ka kb w s).0
failure o c (checkpoint a state) s = error_of (channel_checkpoint o c a state s).0
failure o c (close a state) s = error_of (channel_close o c a state s).0
failure o c (dispute a state) s = error_of (channel_dispute o c a state s).0
failure o c (finalize a i) s = error_of (channel_finalize c a i s).0
