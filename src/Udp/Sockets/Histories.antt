-- ===== src/Udp/Sockets/Histories.antt =====
-- `UdpClient`, src/udp_client.cpp, from the constructor to the destructor, and the moves.
use joyson_glove_sdk.Prelude.{ℕ, ◌≡◌, refl, Bool, true, false, ◌||◌, List}
use joyson_glove_sdk.Prelude.State.{Returns, Returns->>=, Returns-mono}
use joyson_glove_sdk.Udp.Os.{Os}
use joyson_glove_sdk.Udp.Client.{
  Link, UdpClient, UdpConfig, udp_client, is_open, disconnect, move_assign,
}
use joyson_glove_sdk.Udp.Calls.{Call, perform_all}
use joyson_glove_sdk.Udp.Sockets.{SocketLaws, IsValid, owns}
use joyson_glove_sdk.Udp.Sockets.Calls.{IsClosed, disconnect-IsClosed, Keeps-perform_all}

module _ {os : Os} (laws : SocketLaws os) where
  udp_client-IsValid :
      (c : UdpConfig) (w : os.World)
      → IsValid laws (laws.opened w) (record { client = udp_client c; world = w })
  udp_client-IsValid c w = record {
    connected = refl;
    owned = record { fresh = λ m o. cc; opened = λ m. refl };
  }

  -- Where the system keeps its descriptors as `SocketLaws` say: for a new client of any configuration in any world, any sequence of the client's calls, the
  -- exchanges of packets among them, ends without reading outside a vector, with the client
  -- connected when it holds a descriptor and with the open descriptors those from before and its
  -- own; then the destructor leaves open just the descriptors that were open before the
  -- constructor: none is leaked, and none of another owner is closed.
  pub perform_all-disconnect :
      (c : UdpConfig) (w : os.World) (calls : List Call)
      → Returns (perform_all calls (record { client = udp_client c; world = w })) (λ _ l.
        IsValid laws (laws.opened w) l
        × Returns (disconnect l) (λ _ t. IsClosed laws (laws.opened w) t))
  perform_all-disconnect c w calls =
      Returns-mono (perform_all calls (record { client = udp_client c; world = w })) _ _
        (Keeps-perform_all laws (laws.opened w) calls _ (udp_client-IsValid c w))
        (λ _ l h. (h, disconnect-IsClosed laws (laws.opened w) l h))

  -- Where a client and another one hold the open descriptors next to those of others, the move
  -- assignment closes the client's own descriptor, hands it that of the other one, and leaves the
  -- other one unconnected and without a descriptor.
  pub move_assign-IsValid :
      (others : ℕ → Bool) (l : Link os) (other : UdpClient)
      → IsValid laws (λ m. owns other.socket_fd m || others m) l
      → other.connected ≡ is_open other.socket_fd
      → ((m : ℕ) → owns other.socket_fd m ≡ true → others m ≡ false)
      → Returns (move_assign other l) (λ left t.
        IsValid laws others t
        × (t.client ≡ other)
        × (left.connected ≡ false)
        × (is_open left.socket_fd ≡ false))
  unfolding move_assign
  move_assign-IsValid others l other h e fresh =
      Returns->>= disconnect _ (λ _ t. IsClosed laws (λ m. owns other.socket_fd m || others m) t) _
        l (disconnect-IsClosed laws (λ m. owns other.socket_fd m || others m) l h)
        (λ _ t k. (
          record { connected = e; owned = record { fresh = fresh; opened = k.opened } },
          refl,
          refl,
          refl,
        ))
