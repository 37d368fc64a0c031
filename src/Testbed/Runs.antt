-- ===== src/Testbed/Runs.antt =====
-- Examples for src/udp_client.cpp, src/motor_controller.cpp, src/encoder_reader.cpp,
-- src/imu_reader.cpp and src/glove_sdk.cpp.
use joyson_glove_sdk.Prelude.{
  ◌≡◌, refl, arith, Bool, true, false, ◌||◌, ◌==◌, [], ◌∷◌, map, replicate,
}
use joyson_glove_sdk.Prelude.Int.{pos}
use joyson_glove_sdk.Prelude.Monad.{ok}
use joyson_glove_sdk.Prelude.State.{Returns}
use joyson_glove_sdk.Protocol.Packet.{Packet, serialize, default_packet}
use joyson_glove_sdk.Protocol.Codec.Requests.{wire}
use joyson_glove_sdk.Udp.Client.{
  UdpConfig, UdpClient, Link, udp_client, connect, disconnect, move_assign, is_open,
}
use joyson_glove_sdk.Udp.Calls.{connecting, exchanging, perform_all}
use joyson_glove_sdk.Udp.Counters.{Balances, perform_all-Balances}
use joyson_glove_sdk.Udp.Sockets.{IsValid, owns}
use joyson_glove_sdk.Udp.Sockets.Connect.{connect-IsValid}
use joyson_glove_sdk.Udp.Sockets.Calls.{IsClosed}
use joyson_glove_sdk.Udp.Sockets.Histories.{perform_all-disconnect, move_assign-IsValid}
use joyson_glove_sdk.Device.{Device, no_thread}
use joyson_glove_sdk.Motor.{
  MotorController, MotorControllerConfig, initial_status, set_all_modes, set_all_positions,
  set_all_forces, set_motor_mode, set_motor_position, set_motor_force,
}
use joyson_glove_sdk.Motor.Batches.{attempt_all, six_motors, set_all-attempt_all}
use joyson_glove_sdk.Motor.Settings.{position, request, set, exchanged, set-exchanged, set-rejects}
use joyson_glove_sdk.Testbed.{TestWorld, test_os, test_laws}

abbrev pub test_config : UdpConfig
test_config = record {
  server_ip = "192.168.10.123";
  server_port = 8080;
  local_port = 8080;
  send_timeout = 100;
  receive_timeout = 100;
}

abbrev pub first_world : TestWorld
first_world = record { in_use = false; inbox = (1 ∷ 2 ∷ []) ∷ []; clock = 0 }

perform_all-disconnect_example :
    Returns
      (perform_all
        (connecting ∷ exchanging default_packet ∷ [])
        (record { client = udp_client test_config; world = first_world }))
      (λ _ (l : Link test_os).
        IsValid test_laws (test_laws.opened first_world) l
        × Returns (disconnect l) (λ _ t. IsClosed test_laws (test_laws.opened first_world) t))
perform_all-disconnect_example =
    perform_all-disconnect test_laws test_config first_world
      (connecting ∷ exchanging default_packet ∷ [])

-- A connected client.
abbrev test_client : UdpClient
test_client = record (udp_client test_config) { socket_fd = pos 3; connected = true }

abbrev pub test_link : Link test_os
test_link = record { client = test_client; world = record first_world { in_use = true } }

perform_all-Balances_example :
    Returns
      (perform_all (map exchanging (default_packet ∷ default_packet ∷ [])) test_link)
      (λ _ t. Balances 2 test_link.client.stats t.client.stats)
perform_all-Balances_example = perform_all-Balances (default_packet ∷ default_packet ∷ []) test_link

-- An open descriptor of the client alone.
pub test_link-IsValid : IsValid test_laws (λ _. false) test_link
unfolding test_laws
test_link-IsValid = record {
  connected = refl;
  owned = record { fresh = λ m o. refl; opened = λ m. same (3 == m) };
}
  where
    same : (b : Bool) → b ≡ (b || false)
    same true = refl
    same false = refl

-- The client has no descriptor yet, and the other one has 3.
abbrev idle_link : Link test_os
idle_link = record { client = udp_client test_config; world = record first_world { in_use = true } }

move_assign-IsValid_example :
    Returns (move_assign test_client idle_link) (λ left (t : Link test_os).
      IsValid test_laws (λ _. false) t
      × (t.client ≡ test_client)
      × (left.connected ≡ false)
      × (is_open left.socket_fd ≡ false))
unfolding test_laws
move_assign-IsValid_example =
    move_assign-IsValid test_laws (λ _. false) idle_link test_client idle refl (λ m o. refl)
  where
    same : (b : Bool) → b ≡ (b || false)
    same true = refl
    same false = refl

    idle : IsValid test_laws (λ m. owns (pos 3) m || false) idle_link
    idle = record {
      connected = refl;
      owned = record { fresh = λ m o. cc; opened = λ m. same (3 == m) };
    }

connect-IsValid_example :
    Returns
      (connect (record { client = udp_client test_config; world = first_world }))
      (λ done (t : Link test_os). IsValid test_laws (λ _. false) t × (t.client.connected ≡ done))
unfolding test_laws
connect-IsValid_example =
    connect-IsValid test_laws (λ _. false)
      (record { client = udp_client test_config; world = first_world })
      (record { connected = refl; owned = record { fresh = λ m o. cc; opened = λ m. refl } })

abbrev pub test_motor_config : MotorControllerConfig
test_motor_config = record { auto_start_thread = true; update_interval = 100 }

abbrev pub test_motors : Device test_os MotorController
test_motors = record {
  object = record { config = test_motor_config; cached_status = replicate 6 (initial_status 1 0) };
  thread = no_thread;
  link = test_link;
}

set-exchanged_example :
    (p : Packet) × (serialize p ≡ wire (request (position 3 1000)))
    × (set (position 3 1000) test_motors ≡ exchanged p test_motors)
set-exchanged_example =
    set-exchanged (position 3 1000) test_motors (omega arith, omega arith, omega arith)

set-rejects_example : set (position 3 2001) test_motors ≡ ok (false, test_motors)
set-rejects_example = set-rejects (position 3 2001) test_motors tt (λ h. omega (arith, h.2))

set_all-attempt_all_example :
    (set_all_modes 1 test_motors ≡ attempt_all (six_motors set_motor_mode 1 1 1 1 1 1) test_motors)
    × (set_all_positions (1 ∷ 2 ∷ 3 ∷ 4 ∷ 5 ∷ 6 ∷ []) test_motors
        ≡ attempt_all (six_motors set_motor_position 1 2 3 4 5 6) test_motors)
    × (set_all_forces (1 ∷ 2 ∷ 3 ∷ 4 ∷ 5 ∷ 6 ∷ []) test_motors
        ≡ attempt_all (six_motors set_motor_force 1 2 3 4 5 6) test_motors)
set_all-attempt_all_example = set_all-attempt_all 1 2 3 4 5 6 test_motors
