-- ===== src/Testbed/Served.antt =====
-- An example for `GloveSDK::initialize`, src/glove_sdk.cpp, with a board that answers.
use joyson_glove_sdk.Prelude.{ℕ, zero, suc, ◌≡◌, ◌≤◌, refl, arith, true, [], length}
use joyson_glove_sdk.Prelude.Int.{pos}
use joyson_glove_sdk.Prelude.State.{Returns}
use joyson_glove_sdk.Protocol.Packet.{Packet, serialize}
use joyson_glove_sdk.Protocol.Packet.Frame.{accepts}
use joyson_glove_sdk.Protocol.Packet.RoundTrip.{deserialize-eq-some_iff}
use joyson_glove_sdk.Protocol.Codec.Requests.{
  Request, read_motor_id, read_motor_status, set_motor_mode, set_motor_position, set_motor_force,
  set_motor_speed, read_all_encoders, read_imu, wire, IsTyped,
}
use joyson_glove_sdk.Protocol.Parse.{
  parse_encoder_data, parse_imu_data, read_channels, read_uint16_be, read_float_be,
}
use joyson_glove_sdk.Udp.Os.{Os}
use joyson_glove_sdk.Udp.Board.{Board, Holds}
use joyson_glove_sdk.Udp.Opening.{Opens}
use joyson_glove_sdk.Device.Replies.{Replies}
use joyson_glove_sdk.Sdk
use joyson_glove_sdk.Sdk.Parts.{default_config, glove_sdk}
use joyson_glove_sdk.Sdk.Served.{IsUp}
use joyson_glove_sdk.Sdk.Served.Initialize.{initialize-IsUp}
use joyson_glove_sdk.Testbed.{whole_numbers}
use joyson_glove_sdk.Testbed.Replies.{
  known, motor_reply, encoder_reply, imu_reply, answer, board_os, test_board,
}
use joyson_glove_sdk.Testbed.Runs.{first_world}

-- Every socket is new.
abbrev open_os : Os
open_os = record board_os { socket = λ w. (pos 3, record w { in_use = true; inbox = [] }) }

abbrev open_board : Board open_os
unfolding test_board
open_board = record {
  waiting = test_board.waiting;
  answer = answer;
  send-sent = test_board.send-sent;
  send-waiting = test_board.send-waiting;
  recv-received = test_board.recv-received;
  recv-waiting = test_board.recv-waiting;
  steady_now-waiting = λ w. refl;
  sleep_for-waiting = λ nanoseconds w. refl;
}

open_board-Opens : Opens open_board
unfolding test_board
open_board-Opens = record {
  socket-open = λ w. refl;
  socket-waiting = λ w. refl;
  set_reuse_addr-waiting = λ fd w. refl;
  bind-done = λ fd port w. refl;
  bind-waiting = λ fd port w. refl;
  set_timeout-done = λ fd option seconds micros w. refl;
  set_timeout-waiting = λ fd option seconds micros w. refl;
  connect-done = λ fd ip port w. refl;
  connect-waiting = λ fd ip port w. refl;
  start_thread-done = λ w. refl;
  start_thread-waiting = λ w. refl;
}

abbrev packet_of : Request → Packet
packet_of (read_motor_id id) = motor_reply (known id)
packet_of (read_motor_status id) = motor_reply (known id)
packet_of (set_motor_mode id mode) = motor_reply (known id)
packet_of (set_motor_position id position) = motor_reply (known id)
packet_of (set_motor_force id force) = motor_reply (known id)
packet_of (set_motor_speed id speed position) = motor_reply (known id)
packet_of read_all_encoders = encoder_reply
packet_of read_imu = imu_reply

accepted-Holds :
    (p : Packet) → length (serialize p) ≤ 1024 → accepts p ≡ true → Holds open_board (serialize p) p
accepted-Holds p fits fine = record {
  fits = fits;
  deserialized = (deserialize-eq-some_iff (serialize p) p).1 (refl, fine);
}

known-Holds :
    (id : ℕ) → Holds open_board (serialize (motor_reply (known id))) (motor_reply (known id))
unfolding serialize
known-Holds zero = accepted-Holds (motor_reply 0) (omega arith) refl
known-Holds (suc zero) = accepted-Holds (motor_reply 1) (omega arith) refl
known-Holds (suc (suc zero)) = accepted-Holds (motor_reply 2) (omega arith) refl
known-Holds (suc (suc (suc zero))) = accepted-Holds (motor_reply 3) (omega arith) refl
known-Holds (suc (suc (suc (suc zero)))) = accepted-Holds (motor_reply 4) (omega arith) refl
known-Holds (suc (suc (suc (suc (suc zero))))) = accepted-Holds (motor_reply 5) (omega arith) refl
known-Holds (suc (suc (suc (suc (suc (suc zero)))))) =
    accepted-Holds (motor_reply 6) (omega arith) refl
known-Holds (suc (suc (suc (suc (suc (suc (suc n))))))) =
    accepted-Holds (motor_reply 0) (omega arith) refl

reply-Holds :
    (r : Request) → IsTyped r → Holds open_board (open_board.answer (wire r)) (packet_of r)
unfolding wire serialize open_board
reply-Holds (read_motor_id id) typed = known-Holds id
reply-Holds (read_motor_status id) typed = known-Holds id
reply-Holds (set_motor_mode id mode) typed = known-Holds id
reply-Holds (set_motor_position id position) typed = known-Holds id
reply-Holds (set_motor_force id force) typed = known-Holds id
reply-Holds (set_motor_speed id speed position) typed = known-Holds id
reply-Holds read_all_encoders typed = accepted-Holds encoder_reply (omega arith) refl
reply-Holds read_imu typed = accepted-Holds imu_reply (omega arith) refl

test-Replies : Replies ℕ ⦃fl = whole_numbers⦄ open_board
unfolding parse_encoder_data read_channels read_uint16_be parse_imu_data read_float_be
test-Replies = record {
  packet = packet_of;
  holds = reply-Holds;
  encoders = λ now. (_, refl);
  orientation = λ now. (_, refl);
}

initialize-IsUp_example :
    Returns
      (Sdk.initialize ⦃fl = whole_numbers⦄
        (record { sdk = glove_sdk {F = ℕ} default_config; world = first_world }))
      (IsUp {F = ℕ} default_config open_board)
initialize-IsUp_example =
    initialize-IsUp ⦃fl = whole_numbers⦄ test-Replies default_config open_board-Opens first_world
      refl
