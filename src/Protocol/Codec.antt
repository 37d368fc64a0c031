-- ===== src/Protocol/Codec.antt =====
-- The encoders of `ProtocolCodec` in src/protocol.cpp, and `write_uint16_le`.
pub mod Finish
pub mod Requests
pub mod Distinct
use joyson_glove_sdk.Prelude.{ℕ, ◌+◌, ◌-◌, ◌/◌, ◌%◌, ◌^◌, bit_and, List, [], ◌∷◌, ◌++◌, length, set}
use joyson_glove_sdk.Prelude.Monad.{Checked, ok, ◌>>=◌}
use joyson_glove_sdk.Protocol.Constants.{
  board_id, target_motor, target_encoder, target_imu, cmd_read_motor_id, cmd_read_status,
  cmd_set_mode, cmd_set_position, cmd_set_speed, cmd_set_force, motor_header_req_1,
  motor_header_req_2, motor_instr_read_reg, motor_instr_host_cmd, motor_instr_read_write,
  reg_motor_id, reg_mode, reg_force, reg_speed, reg_position,
}
use joyson_glove_sdk.Protocol.Packet.{
  Packet, default_packet, serialize, calculate_checksum, calculate_motor_checksum,
}

-- `v.push_back(b)`
abbrev pub push_back : List ℕ → ℕ → List ℕ
push_back v b = v ++ b ∷ []

-- `v.back() = b`, on a vector that is not empty.
unfoldable pub set_back : List ℕ → ℕ → List ℕ
set_back v b = set v (length v - 1) b

unfoldable pub write_uint16_le : List ℕ → ℕ → List ℕ
write_uint16_le v value =
    push_back (push_back v (bit_and value 0xff % 256)) (bit_and (value / 2 ^ 8) 0xff % 256)

-- The end of every encoder: the length in a `uint8_t`, then the outer checksum.
unfoldable pub finish : Packet → Checked Packet
finish p = do
  let sized = record p { length_field = (2 + length p.body % 256) % 256 }
  sum ← calculate_checksum (serialize sized)
  ok (record sized { checksum = sum })

-- The end of every encoder of a motor command: the inner checksum takes the placeholder's place.
unfoldable pub finish_motor : ℕ → List ℕ → Checked Packet
finish_motor command inner = do
  sum ← calculate_motor_checksum inner
  let p : Packet = record default_packet {
    module_id = board_id;
    target = target_motor;
    command = command;
    body = set_back inner sum;
  }
  finish p

-- The vector `inner` up to the register address, which every encoder of a motor command begins.
abbrev motor_inner : ℕ → ℕ → ℕ → ℕ → List ℕ
motor_inner len motor_id instr reg =
    motor_header_req_1 ∷ motor_header_req_2 ∷ len ∷ motor_id ∷ instr ∷ reg ∷ 0x00 ∷ []

unfoldable pub encode_read_motor_id : ℕ → Checked Packet
encode_read_motor_id motor_id =
    finish_motor cmd_read_motor_id (
      push_back (push_back (motor_inner 0x04 motor_id motor_instr_read_reg reg_motor_id) 0x01) 0x00)

unfoldable pub encode_read_motor_status : ℕ → Checked Packet
encode_read_motor_status motor_id =
    finish_motor cmd_read_status
      (push_back (motor_inner 0x03 motor_id motor_instr_host_cmd 0x00) 0x00)

unfoldable pub encode_set_motor_mode : ℕ → ℕ → Checked Packet
encode_set_motor_mode motor_id mode = finish_motor cmd_set_mode (
    push_back (write_uint16_le (motor_inner 0x05 motor_id motor_instr_read_write reg_mode) mode)
      0x00)

unfoldable pub encode_set_motor_position : ℕ → ℕ → Checked Packet
encode_set_motor_position motor_id position = finish_motor cmd_set_position (
    push_back
      (write_uint16_le (motor_inner 0x05 motor_id motor_instr_read_write reg_position) position)
      0x00)

unfoldable pub encode_set_motor_force : ℕ → ℕ → Checked Packet
encode_set_motor_force motor_id force = finish_motor cmd_set_force (
    push_back (write_uint16_le (motor_inner 0x05 motor_id motor_instr_read_write reg_force) force)
      0x00)

unfoldable pub encode_set_motor_speed : ℕ → ℕ → ℕ → Checked Packet
encode_set_motor_speed motor_id speed target_position = finish_motor cmd_set_speed (
    push_back
      (write_uint16_le
        (write_uint16_le (motor_inner 0x07 motor_id motor_instr_read_write reg_speed) speed)
        target_position)
      0x00)

unfoldable pub encode_read_all_encoders : Checked Packet
encode_read_all_encoders = finish (record default_packet {
  module_id = board_id;
  target = target_encoder;
  command = 0x00;
  body = 0xff ∷ 0xff ∷ [];
})

unfoldable pub encode_read_imu : Checked Packet
encode_read_imu =
    finish (record default_packet {
      module_id = board_id;
      target = target_imu;
      command = 0x00;
      body = [];
    })
