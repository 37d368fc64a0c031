-- ===== src/Protocol/Responses/Sensors.antt =====
-- The responses of the encoder board and of the IMU, marked as the firmware marks them.
use joyson_glove_sdk.Prelude.{
  ℕ, suc, ◌+◌, ◌/◌, ◌%◌, ◌^◌, ◌<◌, ◌≡◌, ◌≢◌, ◌⊎◌, refl, ap, ◌∙◌, arith, true, false, none, some,
  List, [], ◌∷◌, length, All, if◌then◌else◌,
}
use joyson_glove_sdk.Prelude.Float.{Float}
use joyson_glove_sdk.Prelude.Monad.{ok}
use joyson_glove_sdk.Protocol.Packet.{Packet, serialize, deserialize}
use joyson_glove_sdk.Protocol.Packet.Sums.{sum}
use joyson_glove_sdk.Protocol.Packet.Frame.{
  accepts, inner_valid, is_motor_header, deserialize-serialize, deserialize-serialize_accepted,
  last, front,
}
use joyson_glove_sdk.Protocol.Parse.{parse_encoder_data, parse_imu_data}
use joyson_glove_sdk.Protocol.Parse.Encoder.{words_be, length-words_be, parse_encoder_data-words_be}
use joyson_glove_sdk.Protocol.Parse.Imu.{imu_body, parse_imu_data-imu_body}

abbrev response : ℕ → ℕ → List ℕ → ℕ → Packet
response len command body checksum = record {
  header = 0xee;
  length_field = len;
  module_id = 0x01;
  target = 0x02;
  command = command;
  body = body;
  checksum = checksum;
  tail = 0x7e;
}

-- The encoder board's response with its sixteen readings. The length is what the firmware sends,
-- 0x25, or the documented 0x22.
abbrev encoder_packet : ℕ → ℕ → List ℕ → Packet
encoder_packet len command ws =
    response len command (words_be ws [])
      ((0xee + len + 1 + 2 + command + sum (words_be ws [])) % 256)

pub encoder_response : ℕ → ℕ → List ℕ → List ℕ
encoder_response len command ws = serialize (encoder_packet len command ws)

-- The two readings of channel 0 that look like a motor's header.
abbrev pub LooksLikeMotor : ℕ → Type 0
LooksLikeMotor w = (w ≡ 0x55aa) ⊎ (w ≡ 0xaa55)

encoder_accepts :
    (len command : ℕ) (ws : List ℕ)
    → (len ≡ 0x25) ⊎ (len ≡ 0x22)
    → length ws ≡ 16
    → accepts (encoder_packet len command ws) ≡ inner_valid (words_be ws [])
encoder_accepts len command ws h n = ground (arith, length-words_be ws [])

not_motor_header : (w : ℕ) → ¬ LooksLikeMotor w → is_motor_header (w / 256) (w % 256) ≡ false
not_motor_header w h = ground arith

motor_header : (w : ℕ) → LooksLikeMotor w → is_motor_header (w / 256) (w % 256) ≡ true
motor_header w h = ground arith

inner_valid_unlike :
    (a b : ℕ) (ws : List ℕ)
    → is_motor_header a b ≡ false
    → inner_valid (a ∷ b ∷ words_be ws []) ≡ true
inner_valid_unlike a b [] h = refl
inner_valid_unlike a b (w ∷ ws) h = rw h

-- From the wire to the readings, with the length of the firmware or of the documentation: unless
-- channel 0 looks like a motor's header, all sixteen 16-bit values arrive.
pub encoder_response-read :
    (now len command w : ℕ) (ws : List ℕ)
    → (len ≡ 0x25) ⊎ (len ≡ 0x22)
    → length ws ≡ 15
    → All (λ w. w < 2 ^ 16) (w ∷ ws)
    → ¬ LooksLikeMotor w
    → (p : Packet) × (deserialize (encoder_response len command (w ∷ ws)) ≡ ok (some p))
      × (parse_encoder_data now p ≡ ok (some (record { adc_values = w ∷ ws; timestamp = now })))
unfolding encoder_response
encoder_response-read now len command w ws hl n fit h = (
  encoder_packet len command (w ∷ ws),
  deserialize-serialize_accepted (encoder_packet len command (w ∷ ws)) (
      encoder_accepts len command (w ∷ ws) hl (ap suc n)
      ∙ inner_valid_unlike (w / 256) (w % 256) ws (not_motor_header w h)),
  parse_encoder_data-words_be now (encoder_packet len command (w ∷ ws)) (w ∷ ws) [] (ap suc n) fit,
)

-- A reading of channel 0 that looks like a motor's header loses the whole response, unless its last
-- byte happens to be the sum of the bytes between: the inner check takes it for a motor's.
pub encoder_response-dropped :
    (len command w v : ℕ) (ws : List ℕ)
    → (len ≡ 0x25) ⊎ (len ≡ 0x22)
    → length ws ≡ 14
    → LooksLikeMotor w
    → sum (front (v / 256) (v % 256 ∷ words_be ws [])) % 256
      ≢ last (v / 256) (v % 256 ∷ words_be ws [])
    → deserialize (encoder_response len command (w ∷ v ∷ ws)) ≡ ok none
unfolding encoder_response
encoder_response-dropped len command w v ws hl n h ne =
    deserialize-serialize p ∙ ap (λ b. ok (if b then some p else none)) (accepted ∙ refused)
  where
    p : Packet
    p = encoder_packet len command (w ∷ v ∷ ws)

    accepted : accepts p ≡ inner_valid (words_be (w ∷ v ∷ ws) [])
    accepted = encoder_accepts len command (w ∷ v ∷ ws) hl (ap (λ (n : ℕ). suc (suc n)) n)

    refused : inner_valid (words_be (w ∷ v ∷ ws) []) ≡ false
    refused = rw (motor_header w h) (ground (arith, ne))

-- The IMU's response with the bit patterns of its angles, and any checksum.
imu_packet : ℕ → ℕ → ℕ → ℕ → ℕ → Packet
imu_packet command roll pitch yaw checksum =
    response 0x11 command (imu_body roll pitch yaw []) checksum

pub imu_response : ℕ → ℕ → ℕ → ℕ → ℕ → List ℕ
unfolding imu_packet
imu_response command roll pitch yaw checksum =
    serialize (imu_packet command roll pitch yaw checksum)

plain :
    (n : ℕ)
    → ¬ LooksLikeMotor (n / 2 ^ 16)
    → is_motor_header (n / 2 ^ 24) (n / 2 ^ 16 % 256) ≡ false
plain n h = rw (← halves) (not_motor_header (n / 2 ^ 16) h)
  where
    halves : n / 2 ^ 16 / 256 ≡ n / 2 ^ 24
    halves = omega arith

-- From the wire to the angles, three 32-bit patterns, whatever stands in the checksum: unless the
-- upper half of the roll's pattern looks like a motor's header, all three angles arrive.
pub imu_response-read :
    {F : Type 0} ⦃fl : Float F⦄ (now command roll pitch yaw checksum : ℕ)
    → roll < 2 ^ 32
    → pitch < 2 ^ 32
    → yaw < 2 ^ 32
    → ¬ LooksLikeMotor (roll / 2 ^ 16)
    → (p : Packet) × (deserialize (imu_response command roll pitch yaw checksum) ≡ ok (some p))
      × (parse_imu_data now p
          ≡ ok (
              some (record {
                roll = fl.of_bits roll;
                pitch = fl.of_bits pitch;
                yaw = fl.of_bits yaw;
                timestamp = now;
              })))
unfolding imu_response
imu_response-read now command roll pitch yaw checksum hr hp hy h = (
  imu_packet command roll pitch yaw checksum,
  deserialize-serialize_accepted (imu_packet command roll pitch yaw checksum) (rw (plain roll h)),
  parse_imu_data-imu_body now (imu_packet command roll pitch yaw checksum) roll pitch yaw [] hr hp
      hy,
)
