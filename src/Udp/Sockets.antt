-- ===== src/Udp/Sockets.antt =====
-- The socket descriptors of `class UdpClient`, src/udp_client.cpp: which descriptors are open in the
-- system, and which of them the client owns.
pub mod Connect
pub mod Calls
pub mod Histories
use Prim.Native.String.{String}
use joyson_glove_sdk.Prelude.{
  ℕ, ◌≡◌, refl, sym, ap, ◌∙◌, subst, ◌/◌, ◌%◌, ◌*◌, Bool, true, false, not, ◌&&◌, ◌||◌, Option,
  none, some, List, ltb, ◌==◌, if◌then◌else◌, length,
}
use joyson_glove_sdk.Prelude.Int.{ℤ, pos, negsuc}
use joyson_glove_sdk.Prelude.State.{
  State, gets, pure, ◌>>=◌, Returns, Returns->>=, Returns-if, Returns-mono,
}
use joyson_glove_sdk.Protocol.Packet.{Packet, serialize, deserialize}
use joyson_glove_sdk.Udp.Os.{
  Os, Timeout, receive_timeout_option, send_timeout_option, Sent, Received, received, not_received,
}
use joyson_glove_sdk.Udp.Client.{
  Link, UdpClient, is_open, connect, disconnect, bind_local, set_socket_timeout, give_up, join,
  join_end, sys, UdpConfig, send_packet, receive_packet, on_received, deliver, send_and_receive,
  move_assign, update_send_stats,
}

-- The descriptor `fd` is number `m`.
abbrev pub owns : ℤ → ℕ → Bool
owns (pos n) m = n == m
owns (negsuc n) m = false

-- What the manual pages say of descriptors: `socket` returns one that is not open and opens it,
-- `close` closes the one it is given, and the other calls open and close none.
pub record SocketLaws (os : Os) : Type 1 where
  pub opened : os.World → ℕ → Bool
  pub socket-fresh : (w : os.World) (m : ℕ) → owns ((os.socket w).0) m ≡ true → opened w m ≡ false
  pub socket-opened :
      (w : os.World) (m : ℕ) → opened ((os.socket w).1) m ≡ (owns ((os.socket w).0) m || opened w m)
  pub close-opened :
      (n : ℕ) (w : os.World) (m : ℕ) → opened (os.close (pos n) w) m ≡ (not (n == m) && opened w m)
  pub set_reuse_addr-opened :
      (fd : ℤ) (w : os.World) (m : ℕ) → opened ((os.set_reuse_addr fd w).1) m ≡ opened w m
  pub bind-opened :
      (fd : ℤ) (port : ℕ) (w : os.World) (m : ℕ) → opened ((os.bind fd port w).1) m ≡ opened w m
  pub set_timeout-opened :
      (fd : ℤ) (option : Timeout) (seconds micros : ℕ) (w : os.World) (m : ℕ)
      → opened ((os.set_timeout fd option seconds micros w).1) m ≡ opened w m
  pub connect-opened :
      (fd : ℤ) (ip : String) (port : ℕ) (w : os.World) (m : ℕ)
      → opened ((os.connect fd ip port w).1) m ≡ opened w m
  pub send-opened :
      (fd : ℤ) (bytes : List ℕ) (w : os.World) (m : ℕ)
      → opened ((os.send fd bytes w).1) m ≡ opened w m
  pub steady_now-opened : (w : os.World) (m : ℕ) → opened ((os.steady_now w).1) m ≡ opened w m
  pub start_thread-opened : (w : os.World) (m : ℕ) → opened ((os.start_thread w).1) m ≡ opened w m
  pub sleep_for-opened :
      (nanoseconds : ℕ) (w : os.World) (m : ℕ) → opened (os.sleep_for nanoseconds w) m ≡ opened w m
  pub recv-opened :
      (fd : ℤ) (size : ℕ) (w : os.World) (m : ℕ) → opened ((os.recv fd size w).1) m ≡ opened w m

module _ {os : Os} (laws : SocketLaws os) (others : ℕ → Bool) where
  -- The open descriptors are `others` and, if `fd` is one, `fd`, which is not among them.
  pub record IsOwned (fd : ℤ) (w : os.World) : Type 0 where
    pub fresh : (m : ℕ) → owns fd m ≡ true → others m ≡ false
    pub opened : (m : ℕ) → laws.opened w m ≡ (owns fd m || others m)

  -- A client between two calls: it is connected when it has a descriptor.
  pub record IsValid (l : Link os) : Type 0 where
    pub connected : l.client.connected ≡ is_open l.client.socket_fd
    pub owned : IsOwned l.client.socket_fd l.world

  pub IsOwned-keep :
      (fd : ℤ) (w v : os.World)
      → ((m : ℕ) → laws.opened v m ≡ laws.opened w m)
      → IsOwned fd w
      → IsOwned fd v
  IsOwned-keep fd w v e h = record { fresh = h.fresh; opened = λ m. e m ∙ h.opened m }

  -- A socket is created where the client has none.
  pub IsOwned-socket :
      (fd : ℤ) (w : os.World)
      → is_open fd ≡ false
      → IsOwned fd w
      → IsOwned ((os.socket w).0) ((os.socket w).1)
  IsOwned-socket (negsuc k) w e h = record {
    fresh = λ m o. sym (h.opened m) ∙ laws.socket-fresh w m o;
    opened = λ m. laws.socket-opened w m ∙ ap (λ b. owns ((os.socket w).0) m || b) (h.opened m);
  }
  IsOwned-socket (pos n) w e h = cc

  pub IsOwned-close :
      (n : ℕ) (w : os.World) → IsOwned (pos n) w → IsOwned (negsuc 0) (os.close (pos n) w)
  IsOwned-close n w h = record {
    fresh = λ m o. cc;
    opened = λ m.
        laws.close-opened n w m
        ∙ ap (λ b. not (n == m) && b) (h.opened m)
        ∙ others_left (n == m) (others m) (h.fresh m);
  }
    where
      others_left : (b o : Bool) → (b ≡ true → o ≡ false) → (not b && (b || o)) ≡ (false || o)
      others_left true o h = sym (h refl)
      others_left false true h = refl
      others_left false false h = refl
