-- ===== src/Protocol/Parse/Encoder.antt =====
-- `ProtocolCodec::parse_encoder_data` of src/protocol.cpp.
use native.Mathlib.Numerals.{add-one}
use joyson_glove_sdk.Prelude.{
  ℕ, zero, suc, ◌+◌, ◌*◌, ◌/◌, ◌%◌, ◌^◌, ◌≤◌, ◌<◌, ◌≡◌, refl, ap, arith, Each, bit_or, some, not,
  ◌||◌, ◌==◌, List, [], ◌∷◌, length, All, ltb,
}
use joyson_glove_sdk.Prelude.Bits.{word_be}
use joyson_glove_sdk.Prelude.Monad.{ok, Yields, Yields-mono, Yields->>=, Yields-if, Total-Yields}
use joyson_glove_sdk.Protocol.Packet.{Packet, at}
use joyson_glove_sdk.Protocol.Parse.{read_uint16_be, read_channels, EncoderData, parse_encoder_data}
use joyson_glove_sdk.Protocol.Parse.Words.{at-Total, read_uint16_be-word}

-- The words, high byte first, in front of a rest.
abbrev pub words_be : List ℕ → List ℕ → List ℕ
words_be [] rest = rest
words_be (w ∷ ws) rest = word_be w (words_be ws rest)

pub length-words_be : (ws rest : List ℕ) → length (words_be ws rest) ≡ 2 * length ws + length rest
length-words_be [] rest = omega arith
length-words_be (w ∷ ws) rest = omega (arith, length-words_be ws rest)

read_uint16_be-cons :
    (x y : ℕ) (v : List ℕ) (i : ℕ) → read_uint16_be (x ∷ y ∷ v) (suc (suc i)) ≡ read_uint16_be v i
unfolding read_uint16_be
read_uint16_be-cons x y v i = simp add-one

read_channels-cons :
    (x y : ℕ) (v : List ℕ) (rounds i : ℕ)
    → read_channels (x ∷ y ∷ v) (suc i) rounds ≡ read_channels v i rounds
unfolding read_channels
read_channels-cons x y v zero i = refl
read_channels-cons x y v (suc rounds) i = rw (
  two i,
  read_uint16_be-cons x y v (i * 2),
  add-one,
  add-one,
  read_channels-cons x y v rounds (suc i),
)
  where
    two : (i : ℕ) → suc i * 2 ≡ suc (suc (i * 2))
    two i = omega arith

read_channels-words_be :
    (ws rest : List ℕ)
    → All (λ w. w < 2 ^ 16) ws
    → read_channels (words_be ws rest) 0 (length ws) ≡ ok ws
unfolding read_channels
read_channels-words_be [] rest h = refl
read_channels-words_be (w ∷ ws) rest h =
    let v = words_be (w ∷ ws) rest in
    rw (
      read_uint16_be-word v 0 w h.0 refl refl,
      read_channels-cons (w / 256) (w % 256) (words_be ws rest) (length ws) 0,
      read_channels-words_be ws rest h.1,
    )

-- A response of the encoder board gives the sixteen 16-bit values that it carries, stamped with the
-- time of the call.
pub parse_encoder_data-words_be :
    (now : ℕ) (p : Packet) (ws rest : List ℕ)
    → length ws ≡ 16
    → All (λ w. w < 2 ^ 16) ws
    → parse_encoder_data now (record p { module_id = 1; target = 2; body = words_be ws rest })
      ≡ ok (some (record { adc_values = ws; timestamp = now }))
unfolding parse_encoder_data
parse_encoder_data-words_be now p ws rest n h =
    let e : read_channels (words_be ws rest) 0 16 ≡ ok ws =
      rw n at (read_channels-words_be ws rest h) in
    rw e (ground (arith, length-words_be ws rest))

-- Sixteen 16-bit values.
pub record IsReading (r : EncoderData) : Type 0 where
  pub channels : length r.adc_values ≡ 16
  pub typed : All (λ n. n < 2 ^ 16) r.adc_values

read_uint16_be-Yields :
    (v : List ℕ) (i : ℕ) → suc i < length v → Yields (read_uint16_be v i) (λ w. w < 2 ^ 16)
unfolding read_uint16_be
read_uint16_be-Yields v i h =
    Yields->>= (at v i) _ (λ _. Unit {0}) _ (some_byte i (omega arith))
      (λ hi _.
        Yields->>= (at v (i + 1)) _ (λ _. Unit {0}) _ (some_byte (i + 1) (omega arith))
          (λ lo _. mod_lt (bit_or (hi * 2 ^ 8) lo)))
  where
    some_byte : (j : ℕ) → j < length v → Yields (at v j) (λ _. Unit {0})
    some_byte j b = Yields-mono (at v j) _ _ (Total-Yields (at v j) (at-Total v j b)) (λ _ _. tt)

    mod_lt : (n : ℕ) → n % 2 ^ 16 < 2 ^ 16
    mod_lt n = omega arith

read_channels-Yields :
    (v : List ℕ) (i rounds : ℕ)
    → (i + rounds) * 2 ≤ length v
    → Yields (read_channels v i rounds) (λ ws. (length ws ≡ rounds) × All (λ n. n < 2 ^ 16) ws)
unfolding read_channels
read_channels-Yields v i zero h = (refl, tt)
read_channels-Yields v i (suc rounds) h =
    Yields->>= (read_uint16_be v (i * 2)) _ (λ w. w < 2 ^ 16) _
      (read_uint16_be-Yields v (i * 2) (omega arith))
      (λ w b.
        Yields->>= (read_channels v (i + 1) rounds) _
          (λ ws. (length ws ≡ rounds) × All (λ n. n < 2 ^ 16) ws) _
          (read_channels-Yields v (i + 1) rounds (omega arith)) (λ ws k. (ap suc (k.0), (b, k.1))))

-- Whatever the packet, the parser reads nothing outside of the body, and a reading that it returns has
-- sixteen 16-bit values.
pub parse_encoder_data-IsReading :
    (now : ℕ) (p : Packet) → Yields (parse_encoder_data now p) (Each IsReading)
unfolding parse_encoder_data
parse_encoder_data-IsReading now p =
    Yields-if (not (p.module_id == 1) || not (p.target == 2)) _ _ _ (λ _. tt)
      (λ _.
        Yields-if (ltb (length p.body) 32) _ _ _ (λ _. tt)
          (λ long.
            Yields->>= (read_channels p.body 0 16) _
              (λ ws. (length ws ≡ 16) × All (λ n. n < 2 ^ 16) ws) _
              (read_channels-Yields p.body 0 16 (ground (arith, long)))
              (λ ws k. record { channels = k.0; typed = k.1 })))
