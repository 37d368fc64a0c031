-- ===== src/Protocol/Parse/Words.antt =====
-- The readers of words and floats in src/protocol.cpp return the number whose bytes they meet.
use joyson_glove_sdk.Prelude.{
  ℕ, zero, suc, All, ◌+◌, ◌*◌, ◌%◌, ◌/◌, ◌^◌, ◌<◌, ◌≡◌, refl, ap, arith, bit_or, List, [], ◌∷◌,
  length, get_elem?-lt,
}
use joyson_glove_sdk.Prelude.Bits.{bit_or_low, bit_or_high}
use joyson_glove_sdk.Prelude.Float.{Float}
use joyson_glove_sdk.Prelude.Monad.{Total, Yields, >>=-Total, ok, in_bounds}
use joyson_glove_sdk.Protocol.Packet.{at}
use joyson_glove_sdk.Protocol.Parse.{read_uint16_le, read_uint16_be, read_float_be}

-- A byte of a vector whose bytes all satisfy `P`.
pub at-Yields : (v : List ℕ) (P : ℕ → Type 0) (i : ℕ) → All P v → i < length v → Yields (at v i) P
at-Yields [] P i h k = absurd (omega arith)
at-Yields (b ∷ v) P zero h k = h.0
at-Yields (b ∷ v) P (suc i) h k = at-Yields v P i (h.1) (omega arith)

module _ (v : List ℕ) (i : ℕ) where
  pub at-Total : i < length v → Total (at v i)
  at-Total h = let (b, e) = get_elem?-lt v i h in (b, ap in_bounds e)

module _ (v : List ℕ) (i : ℕ) where
  pub read_uint16_le-word :
      (w : ℕ)
      → w < 2 ^ 16
      → at v i ≡ ok (w % 256)
      → at v (i + 1) ≡ ok (w / 256)
      → read_uint16_le v i ≡ ok w
  unfolding read_uint16_le
  read_uint16_le-word w h e f =
      rw (e, f) (ap ok (omega (arith, bit_or_low 8 (w / 256) (w % 256) (omega arith))))

  pub read_uint16_be-word :
      (w : ℕ)
      → w < 2 ^ 16
      → at v i ≡ ok (w / 256)
      → at v (i + 1) ≡ ok (w % 256)
      → read_uint16_be v i ≡ ok w
  unfolding read_uint16_be
  read_uint16_be-word w h e f =
      rw (e, f) (ap ok (omega (arith, bit_or_high 8 (w / 256) (w % 256) (omega arith))))

  pub read_uint16_le-Total : suc i < length v → Total (read_uint16_le v i)
  unfolding read_uint16_le
  read_uint16_le-Total h =
      >>=-Total (at v i) _ (at-Total v i (omega arith))
        λ _. >>=-Total (at v (i + 1)) _ (at-Total v (i + 1) (omega arith)) λ _. (_, refl)

  pub read_uint16_be-Total : suc i < length v → Total (read_uint16_be v i)
  unfolding read_uint16_be
  read_uint16_be-Total h =
      >>=-Total (at v i) _ (at-Total v i (omega arith))
        λ _. >>=-Total (at v (i + 1)) _ (at-Total v (i + 1) (omega arith)) λ _. (_, refl)

module _ {F : Type 0} ⦃fl : Float F⦄ (v : List ℕ) (i : ℕ) where
  pub read_float_be-bits :
      (b0 b1 b2 b3 : ℕ)
      → (b0 < 256) × (b1 < 256) × (b2 < 256) × (b3 < 256)
      → at v i ≡ ok b0
      → at v (i + 1) ≡ ok b1
      → at v (i + 2) ≡ ok b2
      → at v (i + 3) ≡ ok b3
      → read_float_be v i ≡ ok (fl.of_bits (((b0 * 256 + b1) * 256 + b2) * 256 + b3))
  unfolding read_float_be
  read_float_be-bits b0 b1 b2 b3 h e0 e1 e2 e3 =
      rw (e0, e1, e2, e3) (ap (λ (n : ℕ). ok (fl.of_bits n)) joined)
    where
      high : b0 * 2 ^ 24 + b1 * 2 ^ 16 ≡ (b0 * 256 + b1) * 2 ^ 16
      high = omega arith

      middle : (b0 * 256 + b1) * 2 ^ 16 + b2 * 2 ^ 8 ≡ ((b0 * 256 + b1) * 256 + b2) * 2 ^ 8
      middle = omega arith

      joined :
          bit_or (bit_or (bit_or (b0 * 2 ^ 24) (b1 * 2 ^ 16)) (b2 * 2 ^ 8)) b3 % 2 ^ 32
          ≡ ((b0 * 256 + b1) * 256 + b2) * 256 + b3
      joined =
          rw
            (
              bit_or_high 24 b0 (b1 * 2 ^ 16) (omega arith),
              high,
              bit_or_high 16 (b0 * 256 + b1) (b2 * 2 ^ 8) (omega arith),
              middle,
              bit_or_high 8 ((b0 * 256 + b1) * 256 + b2) b3 (omega arith),
            )
            (omega arith)

  pub read_float_be-Total : i + 3 < length v → Total {A = F} (read_float_be v i)
  unfolding read_float_be
  read_float_be-Total h = >>=-Total (at v i) _ (at-Total v i (omega arith)) λ _.
      >>=-Total (at v (i + 1)) _ (at-Total v (i + 1) (omega arith)) λ _.
        >>=-Total (at v (i + 2)) _ (at-Total v (i + 2) (omega arith))
          λ _. >>=-Total (at v (i + 3)) _ (at-Total v (i + 3) (omega arith)) λ _. (_, refl)
