-- ===== src/Udp/Opening.antt =====
-- `UdpClient::connect`, src/udp_client.cpp, where every call of the system succeeds.
use joyson_glove_sdk.Prelude.{ℕ, ◌≡◌, refl, ◌∙◌, ◌/◌, ◌%◌, ◌*◌, Bool, true, false, not, ltb, []}
use Prim.Native.String.{String}
use joyson_glove_sdk.Prelude.Int.{ℤ}
use joyson_glove_sdk.Prelude.State.{pure, Returns, Returns-if, Returns-on_true}
use joyson_glove_sdk.Udp.Os.{Os, Timeout, receive_timeout_option, send_timeout_option}
use joyson_glove_sdk.Udp.Client.{
  Link, is_open, connect, bind_local, set_socket_timeout, give_up, join, join_end, sys, UdpConfig,
}
use joyson_glove_sdk.Udp.Board.{Board, Waits}

-- The calls that open a socket succeed, nothing waits in a new socket, and a thread can be created.
pub record Opens {os : Os} (board : Board os) : Type 0 where
  pub socket-open : (w : os.World) → is_open ((os.socket w).0) ≡ true
  pub socket-waiting : (w : os.World) → board.waiting ((os.socket w).1) ≡ []
  pub set_reuse_addr-waiting :
      (fd : ℤ) (w : os.World) → board.waiting ((os.set_reuse_addr fd w).1) ≡ board.waiting w
  pub bind-done : (fd : ℤ) (port : ℕ) (w : os.World) → (os.bind fd port w).0 ≡ true
  pub bind-waiting :
      (fd : ℤ) (port : ℕ) (w : os.World) → board.waiting ((os.bind fd port w).1) ≡ board.waiting w
  pub set_timeout-done :
      (fd : ℤ) (option : Timeout) (seconds micros : ℕ) (w : os.World)
      → (os.set_timeout fd option seconds micros w).0 ≡ true
  pub set_timeout-waiting :
      (fd : ℤ) (option : Timeout) (seconds micros : ℕ) (w : os.World)
      → board.waiting ((os.set_timeout fd option seconds micros w).1) ≡ board.waiting w
  pub connect-done :
      (fd : ℤ) (ip : String) (port : ℕ) (w : os.World) → (os.connect fd ip port w).0 ≡ true
  pub connect-waiting :
      (fd : ℤ) (ip : String) (port : ℕ) (w : os.World)
      → board.waiting ((os.connect fd ip port w).1) ≡ board.waiting w
  pub start_thread-done : (w : os.World) → (os.start_thread w).0 ≡ true
  pub start_thread-waiting :
      (w : os.World) → board.waiting ((os.start_thread w).1) ≡ board.waiting w

module _ {os : Os} {board : Board os} (opens : Opens board) where
  -- The socket has nothing in it.
  abbrev IsEmpty : Link os → Type 0
  IsEmpty l = board.waiting l.world ≡ []

  -- A call that succeeds and leaves the socket as it is.
  sys-IsEmpty :
      (call : os.World → Bool × os.World)
      → ((w : os.World) → (call w).0 ≡ true)
      → ((w : os.World) → board.waiting ((call w).1) ≡ board.waiting w)
      → (l : Link os) → IsEmpty l
      → Returns (sys call l) (λ done t. (done ≡ true) × IsEmpty t)
  sys-IsEmpty call done keeps l h = (done l.world, keeps l.world ∙ h)

  bind_local-IsEmpty :
      (fd : ℤ) (port : ℕ) (l : Link os)
      → IsEmpty l
      → Returns (bind_local fd port l) (λ done t. (done ≡ true) × IsEmpty t)
  unfolding bind_local
  bind_local-IsEmpty fd port l h =
      Returns-if (not (ltb 0 port)) (pure true) _ _ l (λ _. (refl, h))
        (λ _.
          sys-IsEmpty (os.bind fd port) (opens.bind-done fd port) (opens.bind-waiting fd port)
            (record l { world = (os.set_reuse_addr fd l.world).1 })
            (opens.set_reuse_addr-waiting fd l.world ∙ h))

  set_socket_timeout-IsEmpty :
      (fd : ℤ) (option : Timeout) (timeout : ℕ) (l : Link os)
      → IsEmpty l
      → Returns (set_socket_timeout fd option timeout l) (λ done t. (done ≡ true) × IsEmpty t)
  unfolding set_socket_timeout
  set_socket_timeout-IsEmpty fd option timeout =
      sys-IsEmpty (os.set_timeout fd option (timeout / 1000) (timeout % 1000 * 1000))
        (opens.set_timeout-done fd option (timeout / 1000) (timeout % 1000 * 1000))
        (opens.set_timeout-waiting fd option (timeout / 1000) (timeout % 1000 * 1000))

  join-Waits :
      (fd : ℤ) (c : UdpConfig) (l : Link os)
      → os.is_address c.server_ip ≡ true
      → IsEmpty l
      → Returns (join fd c l) (λ done t. (done ≡ true) × Waits board [] t)
  unfolding join join_end
  join-Waits fd c l address h =
      Returns-on_true (bind_local fd c.local_port) (give_up fd) _ IsEmpty _ l
        (bind_local-IsEmpty fd c.local_port l h)
        (λ l h.
          Returns-on_true (set_socket_timeout fd receive_timeout_option c.receive_timeout)
            (give_up fd) _ IsEmpty _ l (set_socket_timeout-IsEmpty fd _ c.receive_timeout l h)
            (λ l h.
              Returns-on_true (set_socket_timeout fd send_timeout_option c.send_timeout)
                (give_up fd) _ IsEmpty _ l (set_socket_timeout-IsEmpty fd _ c.send_timeout l h)
                (λ l h.
                  Returns-if (not (os.is_address c.server_ip)) (give_up fd) _ _ l
                    (λ e. absurd (is_address e))
                    (λ _.
                      Returns-on_true (sys (os.connect fd c.server_ip c.server_port)) (give_up fd)
                        join_end IsEmpty _ l
                        (sys-IsEmpty (os.connect fd c.server_ip c.server_port)
                          (opens.connect-done fd c.server_ip c.server_port)
                          (opens.connect-waiting fd c.server_ip c.server_port) l h)
                        (λ l h. (refl, record { connected = refl; waiting = h }))))))
    where
      is_address : ¬ (not (os.is_address c.server_ip) ≡ true)
      is_address e = cc

  -- A client that is not connected connects, and nothing waits in its socket.
  pub connect-Waits :
      (l : Link os)
      → os.is_address l.client.config.server_ip ≡ true
      → l.client.connected ≡ false
      → Returns (connect l) (λ done t. (done ≡ true) × Waits board [] t)
  unfolding connect
  connect-Waits l address idle =
      Returns-if l.client.connected _ _ _ l (λ e. absurd (not_connected e))
        (λ _.
          Returns-if (not (is_open ((os.socket l.world).0))) (pure false)
            (join ((os.socket l.world).0) l.client.config) _ _ (λ e. absurd (not_open e))
            (λ _.
              join-Waits ((os.socket l.world).0) l.client.config
                (record {
                  client = record l.client { socket_fd = (os.socket l.world).0 };
                  world = (os.socket l.world).1;
                })
                address (opens.socket-waiting l.world)))
    where
      not_connected : ¬ (l.client.connected ≡ true)
      not_connected e = cc

      not_open : ¬ (not (is_open ((os.socket l.world).0)) ≡ true)
      not_open e = let opened = opens.socket-open l.world in cc
