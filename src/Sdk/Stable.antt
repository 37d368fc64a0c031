-- ===== src/Sdk/Stable.antt =====
-- The validity of the client's descriptor, as the invariant of the link that the parts keep.
use joyson_glove_sdk.Prelude.{ℕ, Bool, Each, Option, none, some}
use joyson_glove_sdk.Prelude.State.{Returns-mono}
use joyson_glove_sdk.Protocol.Packet.{Packet}
use joyson_glove_sdk.Udp.Os.{Os}
use joyson_glove_sdk.Udp.Client.{send_and_receive}
use joyson_glove_sdk.Udp.Sockets.{SocketLaws, IsValid, IsOwned-keep}
use joyson_glove_sdk.Udp.Sockets.Calls.{Keeps-send_and_receive}
use joyson_glove_sdk.Device.Keeps.{IsStable}

any_packet : (o : Option Packet) → Each (λ _. Unit {0}) o
any_packet none = tt
any_packet (some _) = tt

pub sockets_stable :
    {os : Os} (laws : SocketLaws os) (others : ℕ → Bool)
    → IsStable (IsValid laws others) (λ _. Unit {0})
sockets_stable {os} laws others = record {
  exchange = λ p l h.
      Returns-mono (send_and_receive p l) _ _ (Keeps-send_and_receive laws others p l h)
        (λ r t k. (k, any_packet r));
  tick = λ l h. record {
    connected = h.connected;
    owned =
        IsOwned-keep laws others l.client.socket_fd l.world ((os.steady_now l.world).1)
          (laws.steady_now-opened l.world) h.owned;
  };
  start = λ l h. record {
    connected = h.connected;
    owned =
        IsOwned-keep laws others l.client.socket_fd l.world ((os.start_thread l.world).1)
          (laws.start_thread-opened l.world) h.owned;
  };
  sleep = λ nanoseconds l h. record {
    connected = h.connected;
    owned =
        IsOwned-keep laws others l.client.socket_fd l.world (os.sleep_for nanoseconds l.world)
          (laws.sleep_for-opened nanoseconds l.world) h.owned;
  };
}
