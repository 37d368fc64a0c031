-- ===== src/Udp/Sockets/Calls.antt =====
-- `UdpClient`, src/udp_client.cpp: the descriptors over the other calls and over a history of calls.
use joyson_glove_sdk.Prelude.{
  ℕ, ◌≡◌, refl, sym, ap, ◌∙◌, subst, Bool, false, not, Option, none, some, List, [], ◌∷◌,
  if◌then◌else◌,
}
use joyson_glove_sdk.Prelude.Int.{ℤ, pos, negsuc}
use joyson_glove_sdk.Prelude.State.{
  State, lift, pure, ◌>>=◌, ◌>>◌, Returns, Returns->>=, Returns-if, Returns-mono,
}
use joyson_glove_sdk.Protocol.Packet.{Packet, serialize}
use joyson_glove_sdk.Protocol.Packet.RoundTrip.{deserialize-Total}
use joyson_glove_sdk.Udp.Os.{Os, Received, received, not_received}
use joyson_glove_sdk.Udp.Client.{
  Link, is_open, disconnect, send_packet, receive_packet, on_received, deliver, send_and_receive,
  send_async, close_fd, set_fd, on_client, NetworkStatistics, connect, reset_statistics,
}
use joyson_glove_sdk.Udp.Calls.{
  Call, connecting, disconnecting, receiving, resetting, sending, sending_async, exchanging,
  perform, perform_all,
}
use joyson_glove_sdk.Udp.Sockets.{SocketLaws, IsOwned, IsValid, IsOwned-keep, IsOwned-close}
use joyson_glove_sdk.Udp.Sockets.Connect.{connect-IsValid}

module _ {os : Os} (laws : SocketLaws os) (others : ℕ → Bool) where
  -- The client has no descriptor, and the others are as they were.
  pub record IsClosed (l : Link os) : Type 0 where
    pub connected : l.client.connected ≡ false
    pub socket_fd : is_open l.client.socket_fd ≡ false
    pub opened : (m : ℕ) → laws.opened l.world m ≡ others m

  abbrev pub Keeps : {A : Type 0} → State (Link os) A → Type 0
  Keeps m = (l : Link os) → IsValid laws others l → Returns (m l) (λ _ t. IsValid laws others t)

  disconnect_body-IsClosed :
      (fd : ℤ) (l : Link os)
      → IsOwned laws others fd l.world
      → l.client.socket_fd ≡ fd
      → Returns
          (((if is_open fd then close_fd fd >> set_fd (negsuc 0) else pure tt)
              >> on_client (λ c. record c { connected = false }))
            l)
          (λ _ t. IsClosed t)
  disconnect_body-IsClosed (pos n) l k e = record {
    connected = refl;
    socket_fd = refl;
    opened = (IsOwned-close laws others n l.world k).opened;
  }
  disconnect_body-IsClosed (negsuc n) l k e = record {
    connected = refl;
    socket_fd = ap is_open e;
    opened = k.opened;
  }

  pub disconnect-IsClosed :
      (l : Link os) → IsValid laws others l → Returns (disconnect l) (λ _ t. IsClosed t)
  unfolding disconnect
  disconnect-IsClosed l h = disconnect_body-IsClosed l.client.socket_fd l h.owned refl

  pub IsClosed-IsValid : (l : Link os) → IsClosed l → IsValid laws others l
  IsClosed-IsValid l h = record {
    connected = h.connected ∙ sym h.socket_fd;
    owned = closed l.client.socket_fd h.socket_fd;
  }
    where
      closed : (fd : ℤ) → is_open fd ≡ false → IsOwned laws others fd l.world
      closed (pos n) e = cc
      closed (negsuc n) e = record { fresh = λ m o. cc; opened = h.opened }

  -- A change of the statistics and a call that opens and closes no descriptor.
  IsValid-keep :
      (l : Link os) (w : os.World) (stats : NetworkStatistics)
      → ((m : ℕ) → laws.opened w m ≡ laws.opened l.world m)
      → IsValid laws others l
      → IsValid laws others (record { client = record l.client { stats = stats }; world = w })
  IsValid-keep l w stats e h = record {
    connected = h.connected;
    owned = IsOwned-keep laws others l.client.socket_fd l.world w e h.owned;
  }

  Keeps-send_packet : (p : Packet) → Keeps (send_packet p)
  unfolding send_packet
  Keeps-send_packet p l h =
      Returns-if (not l.client.connected) _ _ _ l (λ _. IsValid-keep l l.world _ (λ m. refl) h)
        (λ _. IsValid-keep l _ _ (laws.send-opened l.client.socket_fd (serialize p) l.world) h)

  Keeps-deliver : (r : Option Packet) → Keeps (deliver r)
  unfolding deliver
  Keeps-deliver none l h = record { connected = h.connected; owned = h.owned }
  Keeps-deliver (some p) l h = record { connected = h.connected; owned = h.owned }

  Keeps-on_received : (r : Received) → Keeps (on_received r)
  unfolding on_received
  Keeps-on_received (not_received e) l h = record { connected = h.connected; owned = h.owned }
  Keeps-on_received (received bytes) l h =
      subst (λ r. Returns ((lift r >>= deliver) l) (λ _ t. IsValid laws others t))
        (sym ((deserialize-Total bytes).1)) (Keeps-deliver ((deserialize-Total bytes).0) l h)

  Keeps-receive_packet : Keeps receive_packet
  unfolding receive_packet
  Keeps-receive_packet l h =
      Returns-if (not l.client.connected) _ _ _ l (λ _. IsValid-keep l l.world _ (λ m. refl) h)
        (λ _.
          Keeps-on_received ((os.recv l.client.socket_fd 1024 l.world).0) _
            (IsValid-keep l _ _ (laws.recv-opened l.client.socket_fd 1024 l.world) h))

  pub Keeps-send_and_receive : (p : Packet) → Keeps (send_and_receive p)
  unfolding send_and_receive
  Keeps-send_and_receive p l h =
      Returns->>= (send_packet p) _ (λ done t. IsValid laws others t) _ l (Keeps-send_packet p l h)
        (λ done t k.
          Returns-if (not done) (pure none) receive_packet _ t (λ _. k)
            (λ _. Keeps-receive_packet t k))

  Keeps-send_async : (p : Packet) → Keeps (send_async p)
  unfolding send_async
  Keeps-send_async p = Keeps-send_packet p

  pub Keeps-reset_statistics : Keeps reset_statistics
  unfolding reset_statistics
  Keeps-reset_statistics l h = IsValid-keep l l.world _ (λ m. refl) h

  -- A method whose result is left.
  Keeps-unit : {A : Type 0} (m : State (Link os) A) → Keeps m → Keeps (m >>= λ _. pure tt)
  Keeps-unit m k l h =
      Returns->>= m (λ _. pure tt) (λ _ t. IsValid laws others t) (λ _ t. IsValid laws others t) l
        (k l h) (λ _ t k. k)

  Keeps-perform : (call : Call) → Keeps (perform call)
  unfolding perform
  Keeps-perform connecting =
      Keeps-unit connect
        (λ l h. Returns-mono (connect l) _ _ (connect-IsValid laws others l h) (λ _ t k. k.0))
  Keeps-perform disconnecting = λ l h.
      Returns-mono (disconnect l) _ _ (disconnect-IsClosed l h) (λ _ t k. IsClosed-IsValid t k)
  Keeps-perform receiving = Keeps-unit receive_packet Keeps-receive_packet
  Keeps-perform resetting = Keeps-reset_statistics
  Keeps-perform (sending p) = Keeps-unit (send_packet p) (Keeps-send_packet p)
  Keeps-perform (sending_async p) = Keeps-unit (send_async p) (Keeps-send_async p)
  Keeps-perform (exchanging p) = Keeps-unit (send_and_receive p) (Keeps-send_and_receive p)

  pub Keeps-perform_all : (calls : List Call) → Keeps (perform_all calls)
  unfolding perform_all
  Keeps-perform_all [] l h = h
  Keeps-perform_all (call ∷ calls) l h =
      Returns->>= (perform call) _ (λ _ t. IsValid laws others t) _ l (Keeps-perform call l h)
        (λ _ t k. Keeps-perform_all calls t k)
