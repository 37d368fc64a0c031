-- ===== src/Testbed/Boards.antt =====
-- Examples for src/udp_client.cpp, src/motor_controller.cpp and examples/, with a board that answers.
use joyson_glove_sdk.Prelude.{
  ℕ, zero, suc, ◌+◌, ◌≤◌, ◌≡◌, refl, ◌⊎◌, arith, true, some, List, [], ◌∷◌, ◌++◌, map, length, take,
  drop,
}
use joyson_glove_sdk.Prelude.State.{Returns}
use joyson_glove_sdk.Protocol.Packet.{Packet, serialize, default_packet}
use joyson_glove_sdk.Protocol.Packet.Frame.{accepts}
use joyson_glove_sdk.Protocol.Packet.RoundTrip.{deserialize-eq-some_iff}
use joyson_glove_sdk.Protocol.Codec.Requests.{read_motor_status, wire}
use joyson_glove_sdk.Protocol.Parse.Motor.{parse_motor_status-motor_body}
use joyson_glove_sdk.Udp.Client.{Link}
use joyson_glove_sdk.Udp.Board.{Waits, Holds}
use joyson_glove_sdk.Udp.Threads.{Shared, Reach, finished}
use joyson_glove_sdk.Udp.Threads.Crossed.{begun, crossed, finished-responses}
use joyson_glove_sdk.Device.{Device, no_thread}
use joyson_glove_sdk.Motor.{MotorController, update_once, status_update_loop}
use joyson_glove_sdk.Motor.Reports.{timeless, Reports, Pending, Answers}
use joyson_glove_sdk.Motor.Lag.{statuses_from, update_once-Takes}
use joyson_glove_sdk.Motor.Slots.{timeless_cache}
use joyson_glove_sdk.Motor.Late.{IsBehind, IsShifted, status_update_loop-IsShifted}
use joyson_glove_sdk.Examples.MotorControl.{motor_control_main}
use joyson_glove_sdk.Examples.MotorRun.{motor_control_main-Exits}
use joyson_glove_sdk.Examples.ReadSensors.{read_sensors_main}
use joyson_glove_sdk.Examples.SensorRun.{read_sensors_main-Exits}
use joyson_glove_sdk.Examples.Steps.{Exits}
use joyson_glove_sdk.Testbed.{whole_numbers}
use joyson_glove_sdk.Testbed.Replies.{
  status_of, motor_reply, answer, board_os, board_laws, test_board, board-NeverCuts,
}
use joyson_glove_sdk.Testbed.Runs.{test_link, test_motors, first_world}

motor_control_main-Exits_example :
    Returns
      (motor_control_main {os = board_os} {F = ℕ} ⦃fl = whole_numbers⦄ first_world)
      (Exits ℕ ⦃fl = whole_numbers⦄ board_laws (board_laws.opened first_world))
motor_control_main-Exits_example =
    motor_control_main-Exits ℕ ⦃fl = whole_numbers⦄ board_laws board-NeverCuts first_world

read_sensors_main-Exits_example :
    Returns
      (read_sensors_main {os = board_os} {F = ℕ} ⦃fl = whole_numbers⦄ (λ i. i + 1) first_world)
      (Exits ℕ ⦃fl = whole_numbers⦄ board_laws (board_laws.opened first_world))
read_sensors_main-Exits_example =
    read_sensors_main-Exits ℕ ⦃fl = whole_numbers⦄ board_laws board-NeverCuts (λ i. i + 1)
      first_world

Holds-reply :
    (motor_id : ℕ)
    → motor_id ≤ 6
    → accepts (motor_reply motor_id) ≡ true
    → Holds test_board (serialize (motor_reply motor_id)) (motor_reply motor_id)
unfolding serialize
Holds-reply motor_id few fine = record {
  fits = omega arith;
  deserialized = (deserialize-eq-some_iff _ (motor_reply motor_id)).1 (refl, fine);
}

Reports-reply :
    (motor_id : ℕ)
    → motor_id ≤ 6
    → accepts (motor_reply motor_id) ≡ true
    → Reports test_board (serialize (motor_reply motor_id)) (status_of motor_id)
Reports-reply motor_id few fine = record {
  packet = motor_reply motor_id;
  holds = Holds-reply motor_id few fine;
  parses = λ now.
      parse_motor_status-motor_body now (motor_reply motor_id) (status_of motor_id) 0x0f 0x30 0 0
        ((157 + motor_id) ∷ [])
        (record {
          target_fits = omega arith;
          actual_fits = omega arith;
          current_fits = omega arith;
          force_fits = omega arith;
          raw_fits = omega arith;
        });
}

test_answers : Answers test_board status_of
unfolding wire test_board
test_answers zero low high = absurd (omega (arith, low))
test_answers (suc zero) low high = Reports-reply 1 high refl
test_answers (suc (suc zero)) low high = Reports-reply 2 high refl
test_answers (suc (suc (suc zero))) low high = Reports-reply 3 high refl
test_answers (suc (suc (suc (suc zero)))) low high = Reports-reply 4 high refl
test_answers (suc (suc (suc (suc (suc zero))))) low high = Reports-reply 5 high refl
test_answers (suc (suc (suc (suc (suc (suc zero)))))) low high = Reports-reply 6 high refl
test_answers (suc (suc (suc (suc (suc (suc (suc n))))))) low high = absurd (omega (arith, high))

abbrev board_link : List (List ℕ) → Link board_os
board_link inbox = record {
  client = test_link.client;
  world = record first_world { in_use = true; inbox = inbox };
}

board_motors : List (List ℕ) → Device board_os MotorController
board_motors inbox = record {
  object = test_motors.object;
  thread = no_thread;
  link = board_link inbox;
}

-- The answer of motor 6 to a request before comes late.
abbrev late_request : List ℕ
late_request = wire (read_motor_status 6)

one_late : Pending test_board (status_of 6 ∷ []) (board_link (late_request ∷ []))
unfolding test_board wire
one_late = record {
  queue = answer late_request ∷ [];
  waits = record { connected = refl; waiting = refl };
  report = (test_answers 6 (omega arith) (omega arith), tt);
}

update_once-Takes_example :
    Returns
      (update_once (board_motors (late_request ∷ [])))
      (λ done (t : Device board_os MotorController).
        (done ≡ true)
        × (timeless_cache t.object
            ≡ take 6 (map timeless (status_of 6 ∷ [] ++ statuses_from status_of 1 6)))
        × (length t.object.cached_status ≡ 6)
        × (t.object.config ≡ test_motors.object.config)
        × Pending test_board (drop 6 (status_of 6 ∷ [] ++ statuses_from status_of 1 6)) t.link)
unfolding board_motors
update_once-Takes_example =
    update_once-Takes test_board status_of test_answers (status_of 6 ∷ [])
      (board_motors (late_request ∷ [])) one_late refl

status_update_loop-IsShifted_example :
    Returns
      (status_update_loop (true ∷ true ∷ true ∷ []) (board_motors (late_request ∷ [])))
      (λ failures (t : Device board_os MotorController).
        (failures ≡ 0)
        × IsBehind test_board 1 t.link
        × IsShifted test_board status_of test_answers 1 (omega arith) t.object)
unfolding board_motors
status_update_loop-IsShifted_example =
    status_update_loop-IsShifted test_board status_of test_answers 1 (omega arith)
      (true ∷ true ∷ true ∷ []) (board_motors (late_request ∷ [])) (omega arith)
      (record { statuses = status_of 6 ∷ []; pending = one_late; count = refl }) refl

-- The requests of two threads for the statuses of two motors.
abbrev status_request : ℕ → Packet
status_request motor_id = record default_packet {
  length_field = 10;
  target = 1;
  command = 0x20;
  body = 0x55 ∷ 0xaa ∷ 3 ∷ motor_id ∷ 0x30 ∷ 0 ∷ 0 ∷ (0x33 + motor_id) ∷ [];
  checksum = 0x7f + (motor_id + motor_id);
}

first-Holds : Holds test_board (test_board.answer (serialize (status_request 1))) (motor_reply 1)
unfolding test_board serialize
first-Holds = Holds-reply 1 (omega arith) refl

second-Holds : Holds test_board (test_board.answer (serialize (status_request 2))) (motor_reply 2)
unfolding test_board serialize
second-Holds = Holds-reply 2 (omega arith) refl

status_request-wire : serialize (status_request 1) ≡ wire (read_motor_status 1)
unfolding serialize wire
status_request-wire = refl

-- A run of the two threads in which they get each other's packet.
abbrev begun_threads : Shared board_os
begun_threads =
    begun test_board (status_request 1) (status_request 2) (motor_reply 1) (motor_reply 2)
      first-Holds second-Holds (board_link [])

nothing-Waits : Waits test_board [] (board_link [])
unfolding test_board
nothing-Waits = record { connected = refl; waiting = refl }

some_run :
    (t : Shared board_os) × Reach begun_threads t
    × (t.one ≡ finished (some (motor_reply 2)))
    × (t.two ≡ finished (some (motor_reply 1)))
some_run =
    crossed test_board (status_request 1) (status_request 2) (motor_reply 1) (motor_reply 2)
      first-Holds second-Holds (board_link []) nothing-Waits

finished-responses_example :
    (((some (motor_reply 2) ≡ some (motor_reply 1)) × (some (motor_reply 1) ≡ some (motor_reply 2)))
      ⊎ ((some (motor_reply 2) ≡ some (motor_reply 2))
          × (some (motor_reply 1) ≡ some (motor_reply 1))))
    × ((u : Shared board_os) × Reach begun_threads u
        × (u.one ≡ finished (some (motor_reply 2)))
        × (u.two ≡ finished (some (motor_reply 1))))
finished-responses_example =
    finished-responses test_board (status_request 1) (status_request 2) (motor_reply 1)
      (motor_reply 2) first-Holds second-Holds (board_link []) nothing-Waits (some_run.0)
      (some (motor_reply 2)) (some (motor_reply 1)) (some_run.1) (some_run.2) (some_run.3)
