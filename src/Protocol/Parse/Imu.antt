-- ===== src/Protocol/Parse/Imu.antt =====
-- `ProtocolCodec::parse_imu_data` of src/protocol.cpp.
use joyson_glove_sdk.Prelude.{
  ℕ, ◌+◌, ◌/◌, ◌%◌, ◌^◌, ◌<◌, ◌≡◌, refl, ap, ◌∙◌, arith, none, some, not, ◌==◌, ltb, List, ◌∷◌,
  length,
}
use joyson_glove_sdk.Prelude.Float.{Float}
use joyson_glove_sdk.Prelude.Monad.{ok, Total, >>=-Total, if-Total}
use joyson_glove_sdk.Protocol.Packet.{Packet, at}
use joyson_glove_sdk.Protocol.Parse.{read_float_be, parse_imu_data}
use joyson_glove_sdk.Protocol.Parse.Words.{read_float_be-Total, read_float_be-bits}

-- The four bytes of a 32-bit pattern, high byte first, in front of a rest.
abbrev pub float_be : ℕ → List ℕ → List ℕ
float_be n rest = n / 2 ^ 24 ∷ n / 2 ^ 16 % 256 ∷ n / 2 ^ 8 % 256 ∷ n % 256 ∷ rest

abbrev pub imu_body : ℕ → ℕ → ℕ → List ℕ → List ℕ
imu_body roll pitch yaw rest = float_be roll (float_be pitch (float_be yaw rest))

module _ {F : Type 0} ⦃fl : Float F⦄ where
  read_float_be-pattern :
      (v : List ℕ) (i n : ℕ)
      → n < 2 ^ 32
      → at v i ≡ ok (n / 2 ^ 24)
      → at v (i + 1) ≡ ok (n / 2 ^ 16 % 256)
      → at v (i + 2) ≡ ok (n / 2 ^ 8 % 256)
      → at v (i + 3) ≡ ok (n % 256)
      → read_float_be v i ≡ ok (fl.of_bits n)
  read_float_be-pattern v i n h e0 e1 e2 e3 =
      read_float_be-bits v i _ _ _ _ (omega arith) e0 e1 e2 e3
      ∙ ap (λ (n : ℕ). ok (fl.of_bits n)) (omega arith)

  -- A response of the IMU gives the three angles whose 32-bit patterns it carries, whatever its
  -- target.
  pub parse_imu_data-imu_body :
      (now : ℕ) (p : Packet) (roll pitch yaw : ℕ) (rest : List ℕ)
      → roll < 2 ^ 32
      → pitch < 2 ^ 32
      → yaw < 2 ^ 32
      → parse_imu_data now (record p { module_id = 1; body = imu_body roll pitch yaw rest })
        ≡ ok (
            some (record {
              roll = fl.of_bits roll;
              pitch = fl.of_bits pitch;
              yaw = fl.of_bits yaw;
              timestamp = now;
            }))
  unfolding parse_imu_data
  parse_imu_data-imu_body now p roll pitch yaw rest hr hp hy =
      let v = imu_body roll pitch yaw rest in
      rw
        (
          read_float_be-pattern v 0 roll hr refl refl refl refl,
          read_float_be-pattern v 4 pitch hp refl refl refl refl,
          read_float_be-pattern v 8 yaw hy refl refl refl refl,
        )
        (ground arith)

  -- The parser reads nothing outside of the body, whatever the packet.
  pub parse_imu_data-Total : (now : ℕ) (p : Packet) → Total (parse_imu_data {F = F} now p)
  unfolding parse_imu_data
  parse_imu_data-Total now p =
      if-Total (not (p.module_id == 1)) _ _ (λ _. (none, refl))
        λ _.
          if-Total (ltb (length p.body) 12) _ _ (λ _. (none, refl))
            λ long.
              >>=-Total (read_float_be {F = F} p.body 0) _
                (read_float_be-Total p.body 0 (ground (arith, long)))
                λ _.
                  >>=-Total (read_float_be {F = F} p.body 4) _
                    (read_float_be-Total p.body 4 (ground (arith, long)))
                    λ _.
                      >>=-Total (read_float_be {F = F} p.body 8) _
                        (read_float_be-Total p.body 8 (ground (arith, long))) λ _. (_, refl)
