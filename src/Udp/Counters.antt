-- ===== src/Udp/Counters.antt =====
-- The statistics of `UdpClient`, src/udp_client.cpp: which counters a call raises.
use joyson_glove_sdk.Prelude.{
  ℕ, suc, ◌≡◌, refl, sym, ap, ◌∙◌, subst, ◌+◌, ◌%◌, ◌^◌, Bool, true, false, not, is_some, Option,
  none, some, List, [], ◌∷◌, length, map, arith, if◌then◌else◌,
}
use joyson_glove_sdk.Prelude.State.{
  pure, lift, ◌>>=◌, Returns, Returns->>=, Returns-if, Returns-mono,
}
use joyson_glove_sdk.Protocol.Packet.{Packet}
use joyson_glove_sdk.Protocol.Packet.RoundTrip.{deserialize-Total}
use joyson_glove_sdk.Udp.Os.{Os, Received, received, not_received}
use joyson_glove_sdk.Udp.Client.{
  Link, NetworkStatistics, update_send_stats, update_receive_stats, send_packet, deliver,
  on_received, receive_packet, send_and_receive,
}
use joyson_glove_sdk.Udp.Calls.{exchanging, perform, perform_all}

-- What the counters of the two directions come to.
abbrev pub send_total : NetworkStatistics → ℕ
send_total s = (s.packets_sent + s.send_errors) % 2 ^ 64

abbrev pub receive_total : NetworkStatistics → ℕ
receive_total s = (s.packets_received + s.timeouts + s.checksum_errors + s.receive_errors) % 2 ^ 64

-- From `s` to `t` just one of the counters of `receive_packet` goes up, by one, and it is
-- `packets_received` when a packet was received.
pub record CountsReceive (packet : Option Packet) (s t : NetworkStatistics) : Type 0 where
  pub timeout : Bool
  pub checksum_error : Bool
  pub counted : t ≡ update_receive_stats (is_some packet) timeout checksum_error s

-- Between `s` and `t`, `n` requests were counted, and one response for each that was sent.
pub record Balances (n : ℕ) (s t : NetworkStatistics) : Type 0 where
  pub sends : send_total t ≡ (send_total s + n) % 2 ^ 64
  pub receives :
      (receive_total t + s.packets_sent) % 2 ^ 64 ≡ (receive_total s + t.packets_sent) % 2 ^ 64

exchange-Balances :
    (done timeout checksum_error received : Bool) (s : NetworkStatistics)
    → Balances 1 s (
        if done
        then update_receive_stats received timeout checksum_error (update_send_stats done s)
        else update_send_stats done s)
unfolding update_receive_stats update_send_stats
exchange-Balances false _ _ _ s = record { sends = omega arith; receives = refl }
exchange-Balances true timeout checksum_error true s = record {
  sends = omega arith;
  receives = omega arith;
}
exchange-Balances true true checksum_error false s = record {
  sends = omega arith;
  receives = omega arith;
}
exchange-Balances true false true false s = record { sends = omega arith; receives = omega arith }
exchange-Balances true false false false s = record { sends = omega arith; receives = omega arith }

Balances-trans :
    (n : ℕ) (s t u : NetworkStatistics) → Balances 1 s t → Balances n t u → Balances (suc n) s u
Balances-trans n s t u h k = record {
  sends = omega (arith, h.sends, k.sends);
  receives = omega (arith, h.receives, k.receives);
}

module _ {os : Os} where
  -- `send_packet` always returns, and its result is the counter that it raises.
  pub send_packet-stats :
      (p : Packet) (l : Link os)
      → Returns (send_packet p l) (λ done t. t.client.stats ≡ update_send_stats done l.client.stats)
  unfolding send_packet
  send_packet-stats p l = Returns-if (not l.client.connected) _ _ _ l (λ _. refl) (λ _. refl)

  deliver-stats :
      (r : Option Packet) (l : Link os)
      → Returns (deliver r l) (λ packet t. CountsReceive packet l.client.stats t.client.stats)
  unfolding deliver
  deliver-stats none l = record { timeout = false; checksum_error = true; counted = refl }
  deliver-stats (some p) l = record { timeout = false; checksum_error = false; counted = refl }

  on_received-stats :
      (r : Received) (l : Link os)
      → Returns (on_received r l) (λ packet t. CountsReceive packet l.client.stats t.client.stats)
  unfolding on_received
  on_received-stats (not_received e) l = record {
    timeout = _;
    checksum_error = false;
    counted = refl;
  }
  on_received-stats (received bytes) l =
      subst
        (λ r.
          Returns ((lift r >>= deliver) l)
            (λ packet t. CountsReceive packet l.client.stats t.client.stats))
        (sym ((deserialize-Total bytes).1)) (deliver-stats ((deserialize-Total bytes).0) l)

  pub receive_packet-stats :
      (l : Link os)
      → Returns (receive_packet l) (λ packet t. CountsReceive packet l.client.stats t.client.stats)
  unfolding receive_packet
  receive_packet-stats l =
      Returns-if (not l.client.connected) _ _ _ l
        (λ _. record { timeout = false; checksum_error = false; counted = refl })
        (λ _. on_received-stats ((os.recv l.client.socket_fd 1024 l.world).0) _)

  -- `send_and_receive` behind `send_packet`.
  sent-Balances :
      (done : Bool) (s : NetworkStatistics) (t : Link os)
      → t.client.stats ≡ update_send_stats done s
      → Returns
          ((if not done then pure none else receive_packet) t)
          (λ _ u. Balances 1 s u.client.stats)
  sent-Balances false s t e =
      subst (Balances 1 s) (sym e) (exchange-Balances false false false false s)
  sent-Balances true s t e =
      Returns-mono (receive_packet t) _ _ (receive_packet-stats t) (λ packet u k.
        subst (Balances 1 s)
          (sym
            (k.counted ∙ ap (update_receive_stats (is_some packet) k.timeout k.checksum_error) e))
          (exchange-Balances true k.timeout k.checksum_error (is_some packet) s))

  send_and_receive-Balances :
      (p : Packet) (l : Link os)
      → Returns (send_and_receive p l) (λ _ t. Balances 1 l.client.stats t.client.stats)
  unfolding send_and_receive
  send_and_receive-Balances p l =
      Returns->>= (send_packet p) _
        (λ done t. t.client.stats ≡ update_send_stats done l.client.stats)
        (λ _ t. Balances 1 l.client.stats t.client.stats) l (send_packet-stats p l)
        (λ done t e. sent-Balances done l.client.stats t e)

  exchanging-Balances :
      (p : Packet) (l : Link os)
      → Returns (perform (exchanging p) l) (λ _ t. Balances 1 l.client.stats t.client.stats)
  unfolding perform
  exchanging-Balances p l =
      Returns->>= (send_and_receive p) _ (λ _ t. Balances 1 l.client.stats t.client.stats)
        (λ _ t. Balances 1 l.client.stats t.client.stats) l (send_and_receive-Balances p l)
        (λ _ t k. k)

  -- Any sequence of exchanges from any state of the client returns, and counts, modulo 2 ^ 64, one
  -- request for each exchange and one received packet, timeout, checksum error or receive error
  -- for each request that was sent: no exchange goes uncounted or is counted twice.
  pub perform_all-Balances :
      (packets : List Packet) (l : Link os)
      → Returns
          (perform_all (map exchanging packets) l)
          (λ _ t. Balances (length packets) l.client.stats t.client.stats)
  unfolding perform_all
  perform_all-Balances [] l = record { sends = omega arith; receives = refl }
  perform_all-Balances (p ∷ packets) l =
      Returns->>= (perform (exchanging p)) _ (λ _ t. Balances 1 l.client.stats t.client.stats) _ l
        (exchanging-Balances p l)
        (λ _ t h.
          Returns-mono (perform_all (map exchanging packets) t) _ _ (perform_all-Balances packets t)
            (λ _ u k.
              Balances-trans (length packets) l.client.stats t.client.stats u.client.stats h k))
