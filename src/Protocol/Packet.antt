-- ===== src/Protocol/Packet.antt =====
-- `struct Packet` of include/joyson_glove/protocol.hpp and its methods in src/protocol.cpp. A byte
-- vector is a list of numbers; a read outside of it is `out_of_bounds`.
pub mod Sums
pub mod Frame
pub mod RoundTrip
pub mod Corruption
use joyson_glove_sdk.Prelude.{
  ℕ, zero, suc, ◌+◌, ◌-◌, ◌%◌, ◌^◌, bit_and, Bool, true, not, ◌&&◌, ◌||◌, Option, none, some, List,
  [], ◌∷◌, ◌++◌, length, get_elem?, take, drop, ltb, leb, ◌==◌, if◌then◌else◌,
}
use joyson_glove_sdk.Prelude.Monad.{Checked, ok, out_of_bounds, in_bounds, ◌>>=◌}
use joyson_glove_sdk.Protocol.Constants.{
  packet_header, packet_tail, board_id, motor_header_req_1, motor_header_req_2, motor_header_resp_1,
  motor_header_resp_2,
}

pub record Packet : Type 0 where
  pub header : ℕ
  pub length_field : ℕ
  pub module_id : ℕ
  pub target : ℕ
  pub command : ℕ
  pub body : List ℕ
  pub checksum : ℕ
  pub tail : ℕ

-- `Packet packet;`
abbrev pub default_packet : Packet
default_packet = record {
  header = packet_header;
  length_field = 0;
  module_id = board_id;
  target = 0;
  command = 0;
  body = [];
  checksum = 0;
  tail = packet_tail;
}

-- `a - b` on `size_t`, which wraps below 0.
abbrev pub size_sub : ℕ → ℕ → ℕ
size_sub a b = if leb b a then a - b else a + 2 ^ 64 - b

-- `v[i]`
abbrev pub at : List ℕ → ℕ → Checked ℕ
at v i = in_bounds (get_elem? v i)

-- `v.back()`
abbrev pub back : List ℕ → Checked ℕ
back v = at v (length v - 1)

-- `std::copy` of `count` elements that begin at index `from`.
unfoldable pub copy_range : List ℕ → ℕ → ℕ → Checked (List ℕ)
copy_range v from count =
    if leb (from + count) (length v) then ok (take count (drop from v)) else out_of_bounds

unfoldable pub serialize : Packet → List ℕ
serialize p =
    p.header
    ∷ p.length_field
    ∷ p.module_id
    ∷ p.target
    ∷ p.command
    ∷ (p.body ++ p.checksum ∷ p.tail ∷ [])

-- The loops of the two checksums: `rounds` more elements from index `i` on, into a `uint32_t`.
unfoldable pub sum_bytes : List ℕ → ℕ → ℕ → ℕ → Checked ℕ
sum_bytes v i zero sum = ok sum
sum_bytes v i (suc rounds) sum = do
  byte ← at v i
  sum_bytes v (i + 1) rounds ((sum + byte) % 2 ^ 32)

-- `for (i = 0; i < data.size() - 2; ++i)`
unfoldable pub calculate_checksum : List ℕ → Checked ℕ
calculate_checksum v = do sum ← sum_bytes v 0 (size_sub (length v) 2) 0; ok (bit_and sum 0xff % 256)

-- `for (i = 2; i < inner_data.size() - 1; ++i)`
unfoldable pub calculate_motor_checksum : List ℕ → Checked ℕ
calculate_motor_checksum v = do
  sum ← sum_bytes v 2 (size_sub (length v) 1 - 2) 0
  ok (bit_and sum 0xff % 256)

unfoldable pub validate_checksum : Packet → Checked Bool
validate_checksum p = do
  calculated ← calculate_checksum (serialize p)
  ok (calculated == p.checksum)

-- `validate_motor_checksum` reads nothing but the body.
unfoldable pub check_motor_body : List ℕ → Checked Bool
check_motor_body body = if ltb (length body) 4 then ok true else do
  b0 ← at body 0
  b1 ← at body 1
  let is_motor_request = b0 == motor_header_req_1 && b1 == motor_header_req_2
  let is_motor_response = b0 == motor_header_resp_1 && b1 == motor_header_resp_2
  if not is_motor_request && not is_motor_response
      then ok true
      else do expected ← calculate_motor_checksum body; actual ← back body; ok (expected == actual)

unfoldable pub validate_motor_checksum : Packet → Checked Bool
validate_motor_checksum p = check_motor_body p.body

-- The test of `deserialize` for the responses of the firmware that carry a wrong length.
abbrev pub has_prefix : List ℕ → ℕ → Checked Bool
has_prefix v len = do
  b0 ← at v 0
  b1 ← at v 1
  b2 ← at v 2
  b3 ← at v 3
  ok (leb 4 (length v) && b0 == packet_header && b1 == len && b2 == 0x01 && b3 == 0x02)

-- From the module id on, once header and length are in order.
unfoldable pub read_rest : List ℕ → ℕ → ℕ → Bool → Checked (Option Packet)
read_rest v header len is_imu_response = do
  module_id ← at v 2
  target ← at v 3
  command ← at v 4
  let body_size = size_sub (length v) 7
  body ← copy_range v 5 body_size
  checksum ← at v (5 + body_size)
  tail ← at v (5 + body_size + 1)
  let packet : Packet = record {
    header = header;
    length_field = len;
    module_id = module_id;
    target = target;
    command = command;
    body = body;
    checksum = checksum;
    tail = tail;
  }
  if not (tail == packet_tail) then ok none else do
    outer ← validate_checksum packet
    if not is_imu_response && not outer then ok none else do
      inner ← validate_motor_checksum packet
      if not inner then ok none else ok (some packet)

unfoldable pub deserialize : List ℕ → Checked (Option Packet)
deserialize v = if ltb (length v) 7 then ok none else do
  header ← at v 0
  if not (header == packet_header) then ok none else do
    len ← at v 1
    is_imu_response ← has_prefix v 0x11
    is_encoder_response ← has_prefix v 0x25
    let skip_length_check = is_imu_response || is_encoder_response
    if not skip_length_check && not (len + 5 == length v)
        then ok none
        else read_rest v header len is_imu_response
