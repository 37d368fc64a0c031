-- ===== src/Protocol/Parse/Motor.antt =====
-- `ProtocolCodec::parse_motor_status` of src/protocol.cpp: what it returns, and on which packets it
-- reads past the end of the body.
use joyson_glove_sdk.Prelude.{
  ℕ, ◌^◌, ◌≤◌, ◌<◌, ◌≡◌, refl, ap, ◌↔◌, arith, some, List, ◌∷◌, length, get_elem?-ge,
}
use joyson_glove_sdk.Prelude.Bits.{word_le}
use joyson_glove_sdk.Prelude.Monad.{
  ok, out_of_bounds, in_bounds, Total, >>=-Total, >>=-out_of_bounds, out_of_bounds->>=,
}
use joyson_glove_sdk.Protocol.Packet.{Packet, at}
use joyson_glove_sdk.Protocol.Parse.{
  MotorStatus, read_uint16_le, read_motor_fields, parse_motor_status,
}
use joyson_glove_sdk.Protocol.Parse.Words.{at-Total, read_uint16_le-Total, read_uint16_le-word}

-- The body of a motor's response: header, length, id, instruction, two reserved bytes and the data,
-- with whatever follows the fault code.
abbrev pub motor_body : MotorStatus → ℕ → ℕ → ℕ → ℕ → List ℕ → List ℕ
motor_body s len instr r1 r2 rest =
    0xaa
    ∷ 0x55
    ∷ len
    ∷ s.motor_id
    ∷ instr
    ∷ r1
    ∷ r2
    ∷ word_le s.target_position (
        word_le s.actual_position (
          word_le s.actual_current
            (word_le s.force_value (word_le s.force_raw (s.temperature ∷ s.fault_code ∷ rest)))))

-- The words of a status fit their type.
pub record IsStatus (s : MotorStatus) : Type 0 where
  pub target_fits : s.target_position < 2 ^ 16
  pub actual_fits : s.actual_position < 2 ^ 16
  pub current_fits : s.actual_current < 2 ^ 16
  pub force_fits : s.force_value < 2 ^ 16
  pub raw_fits : s.force_raw < 2 ^ 16

read_motor_fields-motor_body :
    (now : ℕ) (s : MotorStatus) (len instr r1 r2 : ℕ) (rest : List ℕ)
    → IsStatus s
    → read_motor_fields now (motor_body s len instr r1 r2 rest) ≡ ok (record s { timestamp = now })
unfolding read_motor_fields
read_motor_fields-motor_body now s len instr r1 r2 rest h =
    let v = motor_body s len instr r1 r2 rest in
    rw (
      read_uint16_le-word v 7 s.target_position h.target_fits refl refl,
      read_uint16_le-word v 9 s.actual_position h.actual_fits refl refl,
      read_uint16_le-word v 11 s.actual_current h.current_fits refl refl,
      read_uint16_le-word v 13 s.force_value h.force_fits refl refl,
      read_uint16_le-word v 15 s.force_raw h.raw_fits refl refl,
    )

-- A response of a motor that reaches the host with its target in place gives the status that it
-- carries, its five words of 16 bits among it, stamped with the time of the call.
pub parse_motor_status-motor_body :
    (now : ℕ) (p : Packet) (s : MotorStatus) (len instr r1 r2 : ℕ) (rest : List ℕ)
    → IsStatus s
    → parse_motor_status now
        (record p { module_id = 1; target = 1; body = motor_body s len instr r1 r2 rest })
      ≡ ok (some (record s { timestamp = now }))
unfolding parse_motor_status
parse_motor_status-motor_body now p s len instr r1 r2 rest h =
    rw (read_motor_fields-motor_body now s len instr r1 r2 rest h) (ground arith)

read_motor_fields-Total : (now : ℕ) (v : List ℕ) → 19 ≤ length v → Total (read_motor_fields now v)
unfolding read_motor_fields
read_motor_fields-Total now v h = >>=-Total (at v 3) _ (at-Total v 3 (omega arith)) λ _.
    >>=-Total _ _ (read_uint16_le-Total v 7 (omega arith)) λ _.
      >>=-Total _ _ (read_uint16_le-Total v 9 (omega arith)) λ _.
        >>=-Total _ _ (read_uint16_le-Total v 11 (omega arith)) λ _.
          >>=-Total _ _ (read_uint16_le-Total v 13 (omega arith)) λ _.
            >>=-Total _ _ (read_uint16_le-Total v 15 (omega arith)) λ _.
              >>=-Total (at v 17) _ (at-Total v 17 (omega arith))
                λ _. >>=-Total (at v 18) _ (at-Total v 18 (omega arith)) λ _. (_, refl)

read_motor_fields_short :
    (now : ℕ) (v : List ℕ) → length v ≡ 18 → read_motor_fields now v ≡ out_of_bounds
unfolding read_motor_fields
read_motor_fields_short now v h = >>=-out_of_bounds (at v 3) _ λ _.
    >>=-out_of_bounds (read_uint16_le v 7) _ λ _. >>=-out_of_bounds (read_uint16_le v 9) _ λ _.
      >>=-out_of_bounds (read_uint16_le v 11) _ λ _. >>=-out_of_bounds (read_uint16_le v 13) _ λ _.
        >>=-out_of_bounds (read_uint16_le v 15) _ λ _.
          >>=-out_of_bounds (at v 17) _
            λ _. out_of_bounds->>= (at v 18) _ (ap in_bounds (get_elem?-ge v 18 (omega arith)))

-- The packets whose last read is past the end of the body.
pub record IsCut (p : Packet) : Type 0 where
  pub from_board : p.module_id ≡ 1
  pub from_motor : p.target ≡ 1
  pub size : length p.body ≡ 18
  pub header_1 : at p.body 0 ≡ ok 0xaa
  pub header_2 : at p.body 1 ≡ ok 0x55

-- The parser reads outside of the body exactly on the motor responses whose body has 18 bytes, the
-- least that its size test lets through: the fault code would be the 19th.
pub parse_motor_status-out_of_bounds_iff :
    (now : ℕ) (p : Packet) → (parse_motor_status now p ≡ out_of_bounds) ↔ IsCut p
unfolding parse_motor_status
parse_motor_status-out_of_bounds_iff now p = (
  λ h.
      let long : 18 ≤ length p.body = ground (arith, h) in
      let e0 = (at-Total p.body 0 (omega arith)).1 in
      let e1 = (at-Total p.body 1 (omega arith)).1 in
      let enough : ¬ (19 ≤ length p.body) =
        λ le. ground (arith, h, e0, e1, (read_motor_fields-Total now p.body le).1) in
      ground (arith, h, e0, e1, enough),
  λ c. ground (arith, read_motor_fields_short now p.body c.size),
)
