-- ===== src/Testbed/Wire.antt =====
-- Examples for src/protocol.cpp.
use joyson_glove_sdk.Prelude.{
  ℕ, ◌^◌, ◌<◌, ◌≡◌, ◌↔◌, refl, inl, arith, true, none, some, List, [], ◌∷◌, set, replicate, Each,
  All-replicate,
}
use joyson_glove_sdk.Prelude.Monad.{ok, out_of_bounds, Total, Yields}
use joyson_glove_sdk.Protocol.Packet.{Packet, deserialize, serialize}
use joyson_glove_sdk.Protocol.Packet.Frame.{accepts}
use joyson_glove_sdk.Protocol.Packet.RoundTrip.{deserialize-eq-some_iff, deserialize-Total}
use joyson_glove_sdk.Protocol.Packet.Corruption.{deserialize-set}
use joyson_glove_sdk.Protocol.Codec.Requests.{wire, Sends, encode-Sends, set_motor_position}
use joyson_glove_sdk.Protocol.Codec.Distinct.{encode-injective}
use joyson_glove_sdk.Protocol.Parse.{
  MotorStatus, parse_motor_status, parse_encoder_data, parse_imu_data,
}
use joyson_glove_sdk.Protocol.Parse.Motor.{
  motor_body, IsCut, parse_motor_status-motor_body, parse_motor_status-out_of_bounds_iff,
}
use joyson_glove_sdk.Protocol.Parse.Encoder.{
  words_be, IsReading, parse_encoder_data-words_be, parse_encoder_data-IsReading,
}
use joyson_glove_sdk.Protocol.Parse.Imu.{imu_body, parse_imu_data-imu_body}
use joyson_glove_sdk.Protocol.Responses.Motor.{documented_response, documented_response-dropped}
use joyson_glove_sdk.Protocol.Responses.Sensors.{
  encoder_response, encoder_response-read, encoder_response-dropped, imu_response,
  imu_response-read,
}
use joyson_glove_sdk.Testbed.{whole_numbers}

-- The request to move motor 3 to 1000, and the packet that it is.
abbrev move_bytes : List ℕ
move_bytes =
    0xee ∷ 12 ∷ 1 ∷ 1 ∷ 0x31 ∷ 0x55 ∷ 0xaa ∷ 5 ∷ 3 ∷ 0x32 ∷ 0x29 ∷ 0 ∷ 0xe8 ∷ 3 ∷ 0x4e ∷ 0xc8 ∷ 0x7e
    ∷ []

abbrev move_packet : Packet
move_packet = record {
  header = 0xee;
  length_field = 12;
  module_id = 1;
  target = 1;
  command = 0x31;
  body = 0x55 ∷ 0xaa ∷ 5 ∷ 3 ∷ 0x32 ∷ 0x29 ∷ 0 ∷ 0xe8 ∷ 3 ∷ 0x4e ∷ [];
  checksum = 0xc8;
  tail = 0x7e;
}

wire_move : wire (set_motor_position 3 1000) ≡ move_bytes
unfolding wire
wire_move = refl

deserialize-eq-some_iff_example :
    (deserialize move_bytes ≡ ok (some move_packet))
    ↔ ((move_bytes ≡ serialize move_packet) × (accepts move_packet ≡ true))
deserialize-eq-some_iff_example = deserialize-eq-some_iff move_bytes move_packet

move_frame : move_bytes ≡ serialize move_packet
unfolding serialize
move_frame = refl

move_accepted : deserialize move_bytes ≡ ok (some move_packet)
move_accepted = (deserialize-eq-some_iff move_bytes move_packet).1 (move_frame, refl)

deserialize-set_example : deserialize (set move_bytes 12 0xe9) ≡ ok none
deserialize-set_example =
    deserialize-set move_bytes move_packet 12 0xe8 0xe9 move_accepted refl (omega arith) refl
      (omega arith) (omega arith) (omega arith)

deserialize-Total_example : Total (deserialize (0xee ∷ 1 ∷ []))
deserialize-Total_example = deserialize-Total (0xee ∷ 1 ∷ [])

encode-Sends_example : Sends (set_motor_position 3 1000)
encode-Sends_example = encode-Sends (set_motor_position 3 1000) (omega arith, omega arith)

encode-injective_example : set_motor_position 3 1000 ≡ set_motor_position 3 1000
encode-injective_example =
    encode-injective (set_motor_position 3 1000) (set_motor_position 3 1000)
      (omega arith, omega arith) (omega arith, omega arith) refl

abbrev some_status : MotorStatus
some_status = record {
  motor_id = 3;
  target_position = 1000;
  actual_position = 998;
  actual_current = 17;
  force_value = 300;
  force_raw = 301;
  temperature = 40;
  fault_code = 0;
  timestamp = 0;
}

parse_motor_status-motor_body_example :
    parse_motor_status 7 (record move_packet {
      module_id = 1;
      target = 1;
      body = motor_body some_status 0x0f 0x30 0 0 (0x55 ∷ []);
    })
    ≡ ok (some (record some_status { timestamp = 7 }))
parse_motor_status-motor_body_example =
    parse_motor_status-motor_body 7 move_packet some_status 0x0f 0x30 0 0 (0x55 ∷ []) (record {
      target_fits = omega arith;
      actual_fits = omega arith;
      current_fits = omega arith;
      force_fits = omega arith;
      raw_fits = omega arith;
    })

-- A motor response whose body has 18 bytes.
abbrev cut_packet : Packet
cut_packet = record move_packet { body = 0xaa ∷ 0x55 ∷ replicate 16 0 }

parse_motor_status-out_of_bounds_iff_example :
    (parse_motor_status 0 cut_packet ≡ out_of_bounds) ↔ IsCut cut_packet
parse_motor_status-out_of_bounds_iff_example = parse_motor_status-out_of_bounds_iff 0 cut_packet

parse_encoder_data-words_be_example :
    parse_encoder_data 7
      (record move_packet { module_id = 1; target = 2; body = words_be (replicate 16 0x1234) [] })
    ≡ ok (some (record { adc_values = replicate 16 0x1234; timestamp = 7 }))
parse_encoder_data-words_be_example =
    parse_encoder_data-words_be 7 move_packet (replicate 16 0x1234) [] refl
      (All-replicate (λ w. w < 2 ^ 16) 16 0x1234 (omega arith))

parse_encoder_data-IsReading_example :
    Yields (parse_encoder_data 7 (record move_packet { target = 2 })) (Each IsReading)
parse_encoder_data-IsReading_example =
    parse_encoder_data-IsReading 7 (record move_packet { target = 2 })

parse_imu_data-imu_body_example :
    parse_imu_data ⦃fl = whole_numbers⦄ 7
      (record move_packet { module_id = 1; body = imu_body 0x41200000 0x3f800000 0 [] })
    ≡ ok (some (record { roll = 0x41200000; pitch = 0x3f800000; yaw = 0; timestamp = 7 }))
parse_imu_data-imu_body_example =
    parse_imu_data-imu_body ⦃fl = whole_numbers⦄ 7 move_packet 0x41200000 0x3f800000 0 []
      (omega arith) (omega arith) (omega arith)

documented_response-dropped_example :
    (p : Packet) × (deserialize (documented_response some_status) ≡ ok (some p))
    × ((now : ℕ) → parse_motor_status now p ≡ ok none)
documented_response-dropped_example = documented_response-dropped some_status

encoder_response-read_example :
    (p : Packet) × (deserialize (encoder_response 0x25 0 (0x1234 ∷ replicate 15 0x0100))
      ≡ ok (some p))
    × (parse_encoder_data 7 p
        ≡ ok (some (record { adc_values = 0x1234 ∷ replicate 15 0x0100; timestamp = 7 })))
encoder_response-read_example =
    encoder_response-read 7 0x25 0 0x1234 (replicate 15 0x0100) (inl refl) refl
      (omega arith, All-replicate (λ w. w < 2 ^ 16) 15 0x0100 (omega arith)) (λ e. omega arith)

encoder_response-dropped_example :
    deserialize (encoder_response 0x25 0 (0x55aa ∷ 0x0100 ∷ replicate 14 0x0100)) ≡ ok none
encoder_response-dropped_example =
    encoder_response-dropped 0x25 0 0x55aa 0x0100 (replicate 14 0x0100) (inl refl) refl (inl refl)
      (omega arith)

imu_response-read_example :
    (p : Packet) × (deserialize (imu_response 0 0x41200000 0x3f800000 0 0x99) ≡ ok (some p))
    × (parse_imu_data ⦃fl = whole_numbers⦄ 7 p
        ≡ ok (some (record { roll = 0x41200000; pitch = 0x3f800000; yaw = 0; timestamp = 7 })))
imu_response-read_example =
    imu_response-read ⦃fl = whole_numbers⦄ 7 0 0x41200000 0x3f800000 0 0x99 (omega arith)
      (omega arith) (omega arith) (λ e. omega arith)
