-- ===== src/Udp/Board.antt =====
-- Exchanges of a `UdpClient`, src/udp_client.cpp, with a board that answers: the datagrams wait in the
-- socket until `recv` takes the oldest.
use joyson_glove_sdk.Prelude.{
  ℕ, ◌≤◌, ◌≡◌, refl, sym, ap, ◌∙◌, subst, true, false, not, none, some, List, [], ◌∷◌, ◌++◌, length,
  ==_iff,
}
use joyson_glove_sdk.Prelude.Monad.{ok}
use joyson_glove_sdk.Prelude.State.{pure, lift, ◌>>=◌, Returns, Returns->>=, Returns-if}
use joyson_glove_sdk.Prelude.Int.{ℤ}
use joyson_glove_sdk.Protocol.Packet.{Packet, serialize, deserialize}
use joyson_glove_sdk.Udp.Os.{Os, sent, received}
use joyson_glove_sdk.Udp.Client.{
  Link, is_complete, send_packet, receive_packet, on_received, deliver, send_and_receive,
}

-- A board behind the socket that answers every datagram, at once and in order, and no datagram is
-- lost. The clock and a sleep leave the socket alone.
pub record Board (os : Os) : Type 1 where
  pub waiting : os.World → List (List ℕ)
  pub answer : List ℕ → List ℕ
  pub send-sent :
      (fd : ℤ) (bytes : List ℕ) (w : os.World) → (os.send fd bytes w).0 ≡ sent (length bytes)
  pub send-waiting :
      (fd : ℤ) (bytes : List ℕ) (w : os.World)
      → waiting ((os.send fd bytes w).1) ≡ waiting w ++ answer bytes ∷ []
  pub recv-received :
      (fd : ℤ) (size : ℕ) (w : os.World) (bytes : List ℕ) (rest : List (List ℕ))
      → waiting w ≡ bytes ∷ rest
      → length bytes ≤ size
      → (os.recv fd size w).0 ≡ received bytes
  pub recv-waiting :
      (fd : ℤ) (size : ℕ) (w : os.World) (bytes : List ℕ) (rest : List (List ℕ))
      → waiting w ≡ bytes ∷ rest
      → waiting ((os.recv fd size w).1) ≡ rest
  pub steady_now-waiting : (w : os.World) → waiting ((os.steady_now w).1) ≡ waiting w
  pub sleep_for-waiting :
      (nanoseconds : ℕ) (w : os.World) → waiting (os.sleep_for nanoseconds w) ≡ waiting w

module _ {os : Os} (board : Board os) where
  -- A connected client, with these datagrams in its socket.
  pub record Waits (queue : List (List ℕ)) (l : Link os) : Type 0 where
    pub connected : l.client.connected ≡ true
    pub waiting : board.waiting l.world ≡ queue

  -- A datagram that fits the buffer, with the packet that it holds.
  pub record Holds (bytes : List ℕ) (p : Packet) : Type 0 where
    pub fits : length bytes ≤ 1024
    pub deserialized : deserialize bytes ≡ ok (some p)

  not_connected :
      {l : Link os} {queue : List (List ℕ)} → Waits queue l → ¬ (not l.client.connected ≡ true)
  not_connected {l} h e = different (sym e ∙ ap not h.connected)
    where
      different : ¬ (true ≡ false)
      different e = cc

  pub send_packet-Waits :
      (p : Packet) (queue : List (List ℕ)) (l : Link os)
      → Waits queue l
      → Returns
          (send_packet p l)
          (λ done t. (done ≡ true) × Waits (queue ++ board.answer (serialize p) ∷ []) t)
  unfolding send_packet
  send_packet-Waits p queue l h =
      Returns-if (not l.client.connected) _ _ _ l (λ e. absurd (not_connected h e))
        (λ _. (
          complete,
          record {
            connected = h.connected;
            waiting =
                board.send-waiting l.client.socket_fd bytes l.world
                ∙ ap (λ q. q ++ board.answer bytes ∷ []) h.waiting;
          },
        ))
    where
      bytes : List ℕ
      bytes = serialize p

      complete : is_complete ((os.send l.client.socket_fd bytes l.world).0) (length bytes) ≡ true
      complete =
          ap (λ s. is_complete s (length bytes)) (board.send-sent l.client.socket_fd bytes l.world)
          ∙ (==_iff (length bytes) (length bytes)).1 refl

  pub receive_packet-Waits :
      (bytes : List ℕ) (p : Packet) (rest : List (List ℕ)) (l : Link os)
      → Holds bytes p
      → Waits (bytes ∷ rest) l
      → Returns (receive_packet l) (λ r t. (r ≡ some p) × Waits rest t)
  unfolding receive_packet on_received deliver
  receive_packet-Waits bytes p rest l holds h =
      Returns-if (not l.client.connected) _ _ _ l (λ e. absurd (not_connected h e))
        (λ _.
          subst (λ r. Returns (on_received r after) (λ r t. (r ≡ some p) × Waits rest t))
            (sym
              (board.recv-received l.client.socket_fd 1024 l.world bytes rest h.waiting holds.fits))
            (subst (λ r. Returns ((lift r >>= deliver) after) (λ r t. (r ≡ some p) × Waits rest t))
              (sym holds.deserialized)
              (
                refl,
                record {
                  connected = h.connected;
                  waiting = board.recv-waiting l.client.socket_fd 1024 l.world bytes rest h.waiting;
                },
              )))
    where
      after : Link os
      after = record l { world = (os.recv l.client.socket_fd 1024 l.world).1 }

  -- An exchange takes the oldest datagram, which is the answer only where none waited.
  pub send_and_receive-Waits :
      (request : Packet) (queue : List (List ℕ)) (bytes : List ℕ) (p : Packet)
      (rest : List (List ℕ)) (l : Link os)
      → queue ++ board.answer (serialize request) ∷ [] ≡ bytes ∷ rest
      → Holds bytes p
      → Waits queue l
      → Returns (send_and_receive request l) (λ r t. (r ≡ some p) × Waits rest t)
  unfolding send_and_receive
  send_and_receive-Waits request queue bytes p rest l e holds h =
      Returns->>= (send_packet request) _ _ _ l (send_packet-Waits request queue l h) (λ done t k.
        Returns-if (not done) (pure none) receive_packet _ t
          (λ f. absurd (different (sym f ∙ ap not (k.0))))
          (λ _. receive_packet-Waits bytes p rest t holds (subst (λ q. Waits q t) e (k.1))))
    where
      different : ¬ (true ≡ false)
      different e = cc
