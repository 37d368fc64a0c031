-- ===== src/Protocol/Parse.antt =====
-- The response parsers of `ProtocolCodec` in src/protocol.cpp, with the readers of words and floats,
-- and the records that they fill. `now` is what `steady_clock::now()` returns, in nanoseconds.
pub mod Words
pub mod Motor
pub mod Encoder
pub mod Imu
use joyson_glove_sdk.Prelude.{
  ℕ, zero, suc, ◌+◌, ◌*◌, ◌%◌, ◌^◌, bit_or, not, ◌||◌, Option, none, some, List, [], ◌∷◌, length,
  ltb, ◌==◌, if◌then◌else◌,
}
use joyson_glove_sdk.Prelude.Float.{Float}
use joyson_glove_sdk.Prelude.Monad.{Checked, ok, ◌>>=◌}
use joyson_glove_sdk.Protocol.Constants.{
  board_id, target_motor, target_encoder, motor_header_resp_1, motor_header_resp_2,
  num_encoder_channels,
}
use joyson_glove_sdk.Protocol.Packet.{Packet, at}

unfoldable pub read_uint16_le : List ℕ → ℕ → Checked ℕ
read_uint16_le v offset = do
  lo ← at v offset
  hi ← at v (offset + 1)
  ok (bit_or lo (hi * 2 ^ 8) % 2 ^ 16)

unfoldable pub read_uint16_be : List ℕ → ℕ → Checked ℕ
read_uint16_be v offset = do
  hi ← at v offset
  lo ← at v (offset + 1)
  ok (bit_or (hi * 2 ^ 8) lo % 2 ^ 16)

unfoldable pub read_float_be : {F : Type 0} ⦃fl : Float F⦄ → List ℕ → ℕ → Checked F
read_float_be ⦃fl⦄ v offset = do
  b0 ← at v offset
  b1 ← at v (offset + 1)
  b2 ← at v (offset + 2)
  b3 ← at v (offset + 3)
  let bits = bit_or (bit_or (bit_or (b0 * 2 ^ 24) (b1 * 2 ^ 16)) (b2 * 2 ^ 8)) b3 % 2 ^ 32
  ok (fl.of_bits bits)

pub record MotorStatus : Type 0 where
  pub motor_id : ℕ
  pub target_position : ℕ
  pub actual_position : ℕ
  pub actual_current : ℕ
  pub force_value : ℕ
  pub force_raw : ℕ
  pub temperature : ℕ
  pub fault_code : ℕ
  pub timestamp : ℕ

-- The reads of `parse_motor_status` behind its tests.
unfoldable pub read_motor_fields : ℕ → List ℕ → Checked MotorStatus
read_motor_fields now v = do
  motor_id ← at v 3
  target_position ← read_uint16_le v 7
  actual_position ← read_uint16_le v (7 + 2)
  actual_current ← read_uint16_le v (7 + 4)
  force_value ← read_uint16_le v (7 + 6)
  force_raw ← read_uint16_le v (7 + 8)
  temperature ← at v (7 + 10)
  fault_code ← at v (7 + 11)
  let status : MotorStatus = record {
    motor_id = motor_id;
    target_position = target_position;
    actual_position = actual_position;
    actual_current = actual_current;
    force_value = force_value;
    force_raw = force_raw;
    temperature = temperature;
    fault_code = fault_code;
    timestamp = now;
  }
  ok status

unfoldable pub parse_motor_status : ℕ → Packet → Checked (Option MotorStatus)
parse_motor_status now p =
    if not (p.module_id == board_id) || not (p.target == target_motor)
    then ok none
    else if ltb (length p.body) 18
    then ok none
    else do
      b0 ← at p.body 0
      b1 ← at p.body 1
      if not (b0 == motor_header_resp_1) || not (b1 == motor_header_resp_2)
          then ok none
          else do status ← read_motor_fields now p.body; ok (some status)

-- `adc_values` is a `std::array` of `NUM_ENCODER_CHANNELS` words.
pub record EncoderData : Type 0 where
  pub adc_values : List ℕ
  pub timestamp : ℕ

-- The loop of `parse_encoder_data`: `rounds` more channels from channel `i` on.
unfoldable pub read_channels : List ℕ → ℕ → ℕ → Checked (List ℕ)
read_channels v i zero = ok []
read_channels v i (suc rounds) = do
  value ← read_uint16_be v (i * 2)
  rest ← read_channels v (i + 1) rounds
  ok (value ∷ rest)

unfoldable pub parse_encoder_data : ℕ → Packet → Checked (Option EncoderData)
parse_encoder_data now p =
    if not (p.module_id == board_id) || not (p.target == target_encoder)
    then ok none
    else if ltb (length p.body) 32
    then ok none
    else do
      adc_values ← read_channels p.body 0 num_encoder_channels
      ok (some (record { adc_values = adc_values; timestamp = now }))

pub record ImuData (F : Type 0) : Type 0 where
  pub roll : F
  pub pitch : F
  pub yaw : F
  pub timestamp : ℕ

unfoldable pub parse_imu_data :
    {F : Type 0} ⦃fl : Float F⦄ → ℕ → Packet → Checked (Option (ImuData F))
parse_imu_data now p =
    if not (p.module_id == board_id)
    then ok none
    else if ltb (length p.body) 12
    then ok none
    else do
      roll ← read_float_be p.body 0
      pitch ← read_float_be p.body 4
      yaw ← read_float_be p.body 8
      ok (some (record { roll = roll; pitch = pitch; yaw = yaw; timestamp = now }))
