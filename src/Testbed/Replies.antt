-- ===== src/Testbed/Replies.antt =====
-- A system with a board behind its socket that answers every request, on which the examples for
-- src/udp_client.cpp and src/motor_controller.cpp run, and those of examples/.
use mathlib.Core.List.{map-append}
use joyson_glove_sdk.Prelude.{
  ℕ, zero, suc, ◌+◌, ◌≡◌, ◌≢◌, refl, ap, ◌∙◌, arith, none, some, List, [], ◌∷◌, ◌++◌, map, length,
  replicate, get_elem?, length-append,
}
use joyson_glove_sdk.Protocol.Packet.{Packet, serialize}
use joyson_glove_sdk.Protocol.Packet.RoundTrip.{deserialize-eq-some_iff}
use joyson_glove_sdk.Protocol.Parse.{MotorStatus}
use joyson_glove_sdk.Protocol.Parse.Motor.{motor_body, IsCut}
use joyson_glove_sdk.Udp.Os.{Os, eagain, sent, Received, received, not_received}
use joyson_glove_sdk.Udp.Board.{Board}
use joyson_glove_sdk.Udp.Sockets.{SocketLaws}
use joyson_glove_sdk.Sdk.Uncut.{NeverCuts}
use joyson_glove_sdk.Testbed.{TestWorld, test_os, test_laws}

abbrev pub status_of : ℕ → MotorStatus
status_of motor_id = record {
  motor_id = motor_id;
  target_position = 500;
  actual_position = 498;
  actual_current = 17;
  force_value = 30;
  force_raw = 31;
  temperature = 40;
  fault_code = 0;
  timestamp = 0;
}

abbrev pub motor_reply : ℕ → Packet
motor_reply motor_id = record {
  header = 0xee;
  length_field = 22;
  module_id = 1;
  target = 1;
  command = 0x20;
  body = motor_body (status_of motor_id) 0x0f 0x30 0 0 ((157 + motor_id) ∷ []);
  checksum = 95 + (motor_id + motor_id);
  tail = 0x7e;
}

abbrev pub encoder_reply : Packet
encoder_reply = record {
  header = 0xee;
  length_field = 34;
  module_id = 1;
  target = 2;
  command = 0;
  body = replicate 32 0;
  checksum = 19;
  tail = 0x7e;
}

abbrev pub imu_reply : Packet
imu_reply = record {
  header = 0xee;
  length_field = 14;
  module_id = 1;
  target = 3;
  command = 0;
  body = replicate 12 0;
  checksum = 0;
  tail = 0x7e;
}

-- Motor 0 answers for those that are not there.
abbrev pub known : ℕ → ℕ
known (suc (suc (suc (suc (suc (suc (suc n))))))) = 0
known motor_id = motor_id

-- By the target of a request and the id in it.
abbrev reply : ℕ → ℕ → Packet
reply (suc (suc zero)) motor_id = encoder_reply
reply (suc (suc (suc zero))) motor_id = imu_reply
reply _ motor_id = motor_reply (known motor_id)

abbrev byte : List ℕ → ℕ → ℕ
byte bytes i = elim (get_elem? bytes i) [ none ↦ 0 | some b ↦ b ]

abbrev pub answer : List ℕ → List ℕ
answer bytes = serialize (reply (byte bytes 3) (byte bytes 8))

-- The requests that were sent wait in the socket until their answers are read.
abbrev next_answer : TestWorld → Received × TestWorld
next_answer w = elim w.inbox [
  | [] ↦ (not_received eagain, w)
  | bytes ∷ rest ↦ (received (answer bytes), record w { inbox = rest })
]

abbrev pub board_os : Os
board_os = record test_os {
  send = λ fd bytes w. (sent (length bytes), record w { inbox = w.inbox ++ bytes ∷ [] });
  recv = λ fd size w. next_answer w;
}

unfoldable pub board_laws : SocketLaws board_os
unfolding test_laws
board_laws = record {
  opened = test_laws.opened;
  socket-fresh = test_laws.socket-fresh;
  socket-opened = test_laws.socket-opened;
  close-opened = test_laws.close-opened;
  set_reuse_addr-opened = λ fd w m. refl;
  bind-opened = λ fd port w m. refl;
  set_timeout-opened = λ fd option seconds micros w m. refl;
  connect-opened = λ fd ip port w m. refl;
  send-opened = λ fd bytes w m. refl;
  steady_now-opened = λ w m. refl;
  start_thread-opened = λ w m. refl;
  sleep_for-opened = λ nanoseconds w m. refl;
  recv-opened = λ fd size w m. recv_opened w m w.inbox;
}
  where
    recv_opened :
        (w : TestWorld) (m : ℕ) (inbox : List (List ℕ))
        → test_laws.opened ((next_answer (record w { inbox = inbox })).1) m ≡ test_laws.opened w m
    recv_opened w m [] = refl
    recv_opened w m (bytes ∷ rest) = refl

unfoldable pub test_board : Board board_os
test_board = record {
  waiting = λ w. map answer w.inbox;
  answer = answer;
  send-sent = λ fd bytes w. refl;
  send-waiting = λ fd bytes w. map-append answer w.inbox (bytes ∷ []);
  recv-received = λ fd size w bytes rest e fits. received_by w w.inbox bytes rest e;
  recv-waiting = λ fd size w bytes rest e. waiting_by w w.inbox bytes rest e;
  steady_now-waiting = λ w. refl;
  sleep_for-waiting = λ nanoseconds w. refl;
}
  where
    received_by :
        (w : TestWorld) (inbox : List (List ℕ)) (bytes : List ℕ) (rest : List (List ℕ))
        → map answer inbox ≡ bytes ∷ rest
        → (next_answer (record w { inbox = inbox })).0 ≡ received bytes
    received_by w [] bytes rest e = cc
    received_by w (request ∷ inbox) bytes rest e = cc

    waiting_by :
        (w : TestWorld) (inbox : List (List ℕ)) (bytes : List ℕ) (rest : List (List ℕ))
        → map answer inbox ≡ bytes ∷ rest
        → map answer ((next_answer (record w { inbox = inbox })).1.inbox) ≡ rest
    waiting_by w [] bytes rest e = cc
    waiting_by w (request ∷ inbox) bytes rest e = cc

reply_long : (target motor_id : ℕ) → length (serialize (reply target motor_id)) ≢ 25
unfolding serialize
reply_long zero motor_id e = omega (arith, e)
reply_long (suc zero) motor_id e = omega (arith, e)
reply_long (suc (suc zero)) motor_id e = omega (arith, e)
reply_long (suc (suc (suc zero))) motor_id e = omega (arith, e)
reply_long (suc (suc (suc (suc target)))) motor_id e = omega (arith, e)

cut-length : (p : Packet) → IsCut p → length (serialize p) ≡ 25
unfolding serialize
cut-length p h = omega (arith, length-append p.body (p.checksum ∷ p.tail ∷ []), h.size)

pub board-NeverCuts : NeverCuts board_os
board-NeverCuts fd size w bytes p e d cut = by_inbox w.inbox e
  where
    by_inbox :
        (inbox : List (List ℕ)) → ¬ ((next_answer (record w { inbox = inbox })).0 ≡ received bytes)
    by_inbox [] e = cc
    by_inbox (request ∷ inbox) e =
        let same : answer request ≡ bytes = cc in
        reply_long (byte request 3) (byte request 8)
          (ap length (same ∙ ((deserialize-eq-some_iff bytes p).0 d).0) ∙ cut-length p cut)
