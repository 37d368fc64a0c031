-- ===== src/Sdk/Uncut.antt =====
-- A board that sends no motor response with a body of 18 bytes, as src/protocol.cpp needs it.
use joyson_glove_sdk.Prelude.{ℕ, ◌≡◌, refl, Bool, not, Each, Option, none, some, List}
use joyson_glove_sdk.Prelude.Monad.{Checked, ok, out_of_bounds}
use joyson_glove_sdk.Prelude.State.{
  pure, lift, ◌>>=◌, Returns, Returns->>=, Returns-if, Returns-and,
}
use joyson_glove_sdk.Protocol.Packet.{Packet, deserialize}
use joyson_glove_sdk.Protocol.Packet.RoundTrip.{deserialize-Total}
use joyson_glove_sdk.Protocol.Parse.Motor.{IsCut}
use joyson_glove_sdk.Prelude.Int.{ℤ}
use joyson_glove_sdk.Udp.Os.{Os, Received, received, not_received}
use joyson_glove_sdk.Udp.Client.{
  Link, send_packet, receive_packet, on_received, deliver, send_and_receive,
}
use joyson_glove_sdk.Udp.Sockets.{SocketLaws, IsValid}
use joyson_glove_sdk.Udp.Sockets.Calls.{Keeps-send_and_receive}
use joyson_glove_sdk.Device.Keeps.{IsStable}
use joyson_glove_sdk.Sdk.Stable.{sockets_stable}

-- The board sends no motor response with a body of 18 bytes.
abbrev pub NeverCuts : Os → Type 0
NeverCuts os =
    (fd : ℤ) (size : ℕ) (w : os.World) (bytes : List ℕ) (p : Packet)
    → (os.recv fd size w).0 ≡ received bytes
    → deserialize bytes ≡ ok (some p)
    → ¬ (IsCut p)

abbrev IsUncut : Option Packet → Type 0
IsUncut = Each (λ p. ¬ (IsCut p))

module _ {os : Os} (never : NeverCuts os) where
  on_received-IsUncut :
      (r : Received) (l : Link os)
      → ((bytes : List ℕ) (p : Packet)
          → r ≡ received bytes
          → deserialize bytes ≡ ok (some p)
          → ¬ (IsCut p))
      → Returns (on_received r l) (λ r _. IsUncut r)
  unfolding on_received deliver
  on_received-IsUncut (not_received e) l h = tt
  on_received-IsUncut (received bytes) l h =
      by_packet (deserialize bytes) (λ p e. h bytes p refl e) (deserialize-Total bytes)
    where
      by_packet :
          (r : Checked (Option Packet))
          → ((p : Packet) → r ≡ ok (some p) → ¬ (IsCut p))
          → ((o : Option Packet) × (r ≡ ok o))
          → Returns ((lift r >>= deliver) l) (λ r _. IsUncut r)
      by_packet (ok none) h t = tt
      by_packet (ok (some p)) h t = h p refl
      by_packet out_of_bounds h t = absurd (different (t.1))
        where
          different : {o : Option Packet} → ¬ (out_of_bounds ≡ ok o)
          different e = cc

  receive_packet-IsUncut : (l : Link os) → Returns (receive_packet l) (λ r _. IsUncut r)
  unfolding receive_packet
  receive_packet-IsUncut l =
      Returns-if (not l.client.connected) _ _ _ l (λ _. tt)
        (λ _.
          on_received-IsUncut ((os.recv l.client.socket_fd 1024 l.world).0) _
            (never l.client.socket_fd 1024 l.world))

  send_and_receive-IsUncut :
      (p : Packet) (l : Link os) → Returns (send_and_receive p l) (λ r _. IsUncut r)
  unfolding send_and_receive send_packet
  send_and_receive-IsUncut p l =
      Returns->>= (send_packet p) _ (λ _ _. Unit {0}) _ l
        (Returns-if (not l.client.connected) _ _ _ l (λ _. tt) (λ _. tt))
        (λ done t _.
          Returns-if (not done) (pure none) receive_packet _ t (λ _. tt)
            (λ _. receive_packet-IsUncut t))

  pub never_stable :
      (laws : SocketLaws os) (others : ℕ → Bool) → IsStable (IsValid laws others) (λ p. ¬ (IsCut p))
  never_stable laws others = record {
    exchange = λ p l h.
        Returns-and (send_and_receive p l) _ _ (Keeps-send_and_receive laws others p l h)
          (send_and_receive-IsUncut p l);
    tick = (sockets_stable laws others).tick;
    start = (sockets_stable laws others).start;
    sleep = (sockets_stable laws others).sleep;
  }
