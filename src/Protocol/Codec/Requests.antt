-- ===== src/Protocol/Codec/Requests.antt =====
-- The eight encoders of `ProtocolCodec` in src/protocol.cpp against a description of the frames:
-- what goes on the wire, that `deserialize` accepts it, and that it says which request it is.
use mathlib.Core.Path.{ap₂}
use mathlib.Core.List.{append_assoc}
use joyson_glove_sdk.Prelude.{
  ℕ, ◌+◌, ◌/◌, ◌%◌, ◌^◌, ◌<◌, ◌≡◌, refl, sym, ap, ◌∙◌, arith, some, List, [], ◌∷◌, ◌++◌, length,
}
use joyson_glove_sdk.Prelude.Bits.{bit_and_byte, word_le}
use joyson_glove_sdk.Prelude.Monad.{Checked, ok}
use joyson_glove_sdk.Protocol.Packet.{Packet, default_packet, serialize, deserialize}
use joyson_glove_sdk.Protocol.Packet.Sums.{sum}
use joyson_glove_sdk.Protocol.Codec.{
  write_uint16_le, finish_motor, encode_read_motor_id, encode_read_motor_status,
  encode_set_motor_mode, encode_set_motor_position, encode_set_motor_force, encode_set_motor_speed,
  encode_read_all_encoders, encode_read_imu,
}
use joyson_glove_sdk.Protocol.Codec.Finish.{
  finished, finish-finished, finish_motor-motor_packet, motor_packet, motor_unfinished,
  deserialize-finished, inner_valid-sealed,
}

-- What the host asks of the board, by encoder.
pub data Request : Type 0 where
  read_motor_id read_motor_status : ℕ → Request
  set_motor_mode set_motor_position set_motor_force : ℕ → ℕ → Request
  set_motor_speed : ℕ → ℕ → ℕ → Request
  read_all_encoders read_imu : Request

unfoldable pub encode : Request → Checked Packet
encode (read_motor_id id) = encode_read_motor_id id
encode (read_motor_status id) = encode_read_motor_status id
encode (set_motor_mode id mode) = encode_set_motor_mode id mode
encode (set_motor_position id position) = encode_set_motor_position id position
encode (set_motor_force id force) = encode_set_motor_force id force
encode (set_motor_speed id speed position) = encode_set_motor_speed id speed position
encode read_all_encoders = encode_read_all_encoders
encode read_imu = encode_read_imu

-- The arguments as the encoders take them: `uint8_t` and `uint16_t`.
abbrev pub IsTyped : Request → Type 0
IsTyped (read_motor_id id) = id < 256
IsTyped (read_motor_status id) = id < 256
IsTyped (set_motor_mode id mode) = (id < 256) × (mode < 256)
IsTyped (set_motor_position id position) = (id < 256) × (position < 2 ^ 16)
IsTyped (set_motor_force id force) = (id < 256) × (force < 2 ^ 16)
IsTyped (set_motor_speed id speed position) = (id < 256) × (speed < 2 ^ 16) × (position < 2 ^ 16)
IsTyped read_all_encoders = Unit
IsTyped read_imu = Unit

-- A motor's part between its header and its checksum.
abbrev pub motor_part : Request → List ℕ
motor_part (read_motor_id id) = 4 ∷ id ∷ 0x31 ∷ 0x16 ∷ 0 ∷ 1 ∷ []
motor_part (read_motor_status id) = 3 ∷ id ∷ 0x30 ∷ 0 ∷ 0 ∷ []
motor_part (set_motor_mode id mode) = 5 ∷ id ∷ 0x32 ∷ 0x25 ∷ 0 ∷ word_le mode []
motor_part (set_motor_position id position) = 5 ∷ id ∷ 0x32 ∷ 0x29 ∷ 0 ∷ word_le position []
motor_part (set_motor_force id force) = 5 ∷ id ∷ 0x32 ∷ 0x27 ∷ 0 ∷ word_le force []
motor_part (set_motor_speed id speed position) =
    7 ∷ id ∷ 0x32 ∷ 0x28 ∷ 0 ∷ word_le speed (word_le position [])
motor_part _ = []

-- The frame around a body, from the target on.
abbrev enclosed : ℕ → ℕ → List ℕ → List ℕ
enclosed target command body =
    let len = length body + 2 in
    0xee
    ∷ len
    ∷ 1
    ∷ target
    ∷ command
    ∷ (body ++ (0xee + len + 1 + target + command + sum body) % 256 ∷ 0x7e ∷ [])

abbrev motor_frame : ℕ → Request → List ℕ
motor_frame command r =
    let xs = motor_part r in enclosed 1 command (0x55 ∷ 0xaa ∷ (xs ++ sum xs % 256 ∷ []))

-- The bytes of a request on the wire, by the tables in the sections 3.0 to 3.5, 4.2 and 5.2 of
-- docs/PROTOCOL.md; its examples 8.1 and 9.2 have other ones.
unfoldable pub wire : Request → List ℕ
wire (read_motor_id id) = motor_frame 0x10 (read_motor_id id)
wire (read_motor_status id) = motor_frame 0x20 (read_motor_status id)
wire (set_motor_mode id mode) = motor_frame 0x30 (set_motor_mode id mode)
wire (set_motor_position id position) = motor_frame 0x31 (set_motor_position id position)
wire (set_motor_speed id speed position) = motor_frame 0x32 (set_motor_speed id speed position)
wire (set_motor_force id force) = motor_frame 0x33 (set_motor_force id force)
wire read_all_encoders = enclosed 2 0 (0xff ∷ 0xff ∷ [])
wire read_imu = enclosed 3 0 []

-- A packet that `encode` returns, that has these bytes, and that comes back from them.
abbrev pub Sends : Request → Type 0
Sends r =
    (p : Packet) × (encode r ≡ ok p) × (serialize p ≡ wire r) × (deserialize (wire r) ≡ ok (some p))

write_uint16_le-word_le :
    (v : List ℕ) (w : ℕ) → w < 2 ^ 16 → write_uint16_le v w ≡ v ++ word_le w []
unfolding write_uint16_le
write_uint16_le-word_le v w h =
    rw (append_assoc, bit_and_byte w, bit_and_byte (w / 256))
      (ap₂ (λ (a b : ℕ). v ++ a ∷ b ∷ []) (omega arith) (omega arith))

motor-Sends :
    (r : Request) (command : ℕ)
    → length (motor_part r) < 251
    → wire r ≡ motor_frame command r
    → encode r ≡ ok (motor_packet command (motor_part r))
    → Sends r
unfolding serialize
motor-Sends r command short w e = (
  motor_packet command (motor_part r),
  e,
  sym w,
  ap deserialize w
      ∙ deserialize-finished (motor_unfinished command (motor_part r)) refl refl
          (inner_valid-sealed 0x55 0xaa (motor_part r)),
)

word-Sends :
    (r : Request) (command len id reg w : ℕ)
    → w < 2 ^ 16
    → motor_part r ≡ len ∷ id ∷ 0x32 ∷ reg ∷ 0 ∷ word_le w []
    → finish_motor command
        (write_uint16_le (0x55 ∷ 0xaa ∷ len ∷ id ∷ 0x32 ∷ reg ∷ 0 ∷ []) w ++ 0 ∷ [])
      ≡ ok (motor_packet command (motor_part r))
word-Sends r command len id reg w h part =
    rw (write_uint16_le-word_le (0x55 ∷ 0xaa ∷ len ∷ id ∷ 0x32 ∷ reg ∷ 0 ∷ []) w h, part)
      (finish_motor-motor_packet command (len ∷ id ∷ 0x32 ∷ reg ∷ 0 ∷ word_le w []) (omega arith))

abbrev sensor_unfinished : ℕ → List ℕ → Packet
sensor_unfinished target body = record default_packet {
  module_id = 1;
  target = target;
  command = 0;
  body = body;
}

-- With arguments in the range of their types, every request becomes a packet with the bytes that its
-- section of docs/PROTOCOL.md tabulates, 3.0 to 3.5, 4.2 or 5.2, and `deserialize` accepts those bytes
-- and returns that packet.
pub encode-Sends : (r : Request) → IsTyped r → Sends r
unfolding encode encode_read_motor_id encode_read_motor_status encode_set_motor_mode
    encode_set_motor_position encode_set_motor_force encode_set_motor_speed encode_read_all_encoders
    encode_read_imu wire serialize
encode-Sends (read_motor_id id) t =
    motor-Sends (read_motor_id id) 0x10 (omega arith) refl
      (finish_motor-motor_packet 0x10 (motor_part (read_motor_id id)) (omega arith))
encode-Sends (read_motor_status id) t =
    motor-Sends (read_motor_status id) 0x20 (omega arith) refl
      (finish_motor-motor_packet 0x20 (motor_part (read_motor_status id)) (omega arith))
encode-Sends (set_motor_mode id mode) t =
    motor-Sends (set_motor_mode id mode) 0x30 (omega arith) refl
      (word-Sends (set_motor_mode id mode) 0x30 5 id 0x25 mode (omega arith) refl)
encode-Sends (set_motor_position id position) t =
    motor-Sends (set_motor_position id position) 0x31 (omega arith) refl
      (word-Sends (set_motor_position id position) 0x31 5 id 0x29 position t.1 refl)
encode-Sends (set_motor_force id force) t =
    motor-Sends (set_motor_force id force) 0x33 (omega arith) refl
      (word-Sends (set_motor_force id force) 0x33 5 id 0x27 force t.1 refl)
encode-Sends (set_motor_speed id speed position) t =
    let xs = motor_part (set_motor_speed id speed position) in
    let start : List ℕ = 0x55 ∷ 0xaa ∷ 7 ∷ id ∷ 0x32 ∷ 0x28 ∷ 0 ∷ [] in
    motor-Sends (set_motor_speed id speed position) 0x32 (omega arith) refl (
      rw
        (
          write_uint16_le-word_le start speed t.1,
          write_uint16_le-word_le (start ++ word_le speed []) position t.2,
        )
        (finish_motor-motor_packet 0x32 xs (omega arith)))
encode-Sends read_all_encoders t =
    let p = sensor_unfinished 2 (0xff ∷ 0xff ∷ []) in
    (finished p, finish-finished p (omega arith), refl, deserialize-finished p refl refl refl)
encode-Sends read_imu t =
    let p = sensor_unfinished 3 [] in
    (finished p, finish-finished p (omega arith), refl, deserialize-finished p refl refl refl)
