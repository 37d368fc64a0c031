-- ===== src/Protocol/Responses/Motor.antt =====
-- A motor's status response, laid out as docs/PROTOCOL.md (3.1) documents it.
use joyson_glove_sdk.Prelude.{ℕ, ◌%◌, ◌≡◌, refl, arith, none, some, List, [], ◌∷◌, ◌++◌}
use joyson_glove_sdk.Prelude.Bits.{word_le}
use joyson_glove_sdk.Prelude.Monad.{ok}
use joyson_glove_sdk.Protocol.Packet.{Packet, serialize, deserialize}
use joyson_glove_sdk.Protocol.Packet.Sums.{sum}
use joyson_glove_sdk.Protocol.Packet.Frame.{deserialize-serialize_accepted, accepts_of_fields}
use joyson_glove_sdk.Protocol.Parse.{MotorStatus, parse_motor_status}

-- Length, id, instruction, two reserved bytes, ten bytes of words, temperature and fault code.
abbrev motor_data : MotorStatus → List ℕ
motor_data s =
    0x0f
    ∷ s.motor_id
    ∷ 0x30
    ∷ 0
    ∷ 0
    ∷ word_le s.target_position (
        word_le s.actual_position (
          word_le s.actual_current
            (word_le s.force_value (word_le s.force_raw (s.temperature ∷ s.fault_code ∷ [])))))

-- All that the outer checksum covers: the document has no target and no command here.
abbrev documented_start : MotorStatus → List ℕ
documented_start s =
    0xee ∷ 0x14 ∷ 0x01 ∷ 0xaa ∷ 0x55 ∷ (motor_data s ++ sum (motor_data s) % 256 ∷ [])

abbrev pub documented_response : MotorStatus → List ℕ
documented_response s = documented_start s ++ sum (documented_start s) % 256 ∷ 0x7e ∷ []

read_as : MotorStatus → Packet
read_as s = record {
  header = 0xee;
  length_field = 0x14;
  module_id = 0x01;
  target = 0xaa;
  command = 0x55;
  body = motor_data s ++ sum (motor_data s) % 256 ∷ [];
  checksum = sum (documented_start s) % 256;
  tail = 0x7e;
}

-- The documented response passes every check of `deserialize`, and then the parser drops it: the
-- motor's header stands where the packet's target and command are read.
pub documented_response-dropped :
    (s : MotorStatus)
    → (p : Packet) × (deserialize (documented_response s) ≡ ok (some p))
      × ((now : ℕ) → parse_motor_status now p ≡ ok none)
unfolding read_as serialize parse_motor_status
documented_response-dropped s = (
  read_as s,
  deserialize-serialize_accepted (read_as s)
      (accepts_of_fields (read_as s) refl refl refl (omega arith) refl),
  λ now. refl,
)
