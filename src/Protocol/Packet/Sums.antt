-- ===== src/Protocol/Packet/Sums.antt =====
-- The checksum loops of src/protocol.cpp against a plain sum modulo 256.
use native.Mathlib.Numerals.{add-one}
use joyson_glove_sdk.Prelude.{
  ℕ, zero, suc, ◌+◌, ◌-◌, ◌%◌, ◌^◌, ◌≡◌, refl, ap, ◌∙◌, arith, List, [], ◌∷◌, ◌++◌, length,
  length-append,
}
use joyson_glove_sdk.Prelude.Bits.{bit_and_byte}
use joyson_glove_sdk.Prelude.Monad.{ok, >>=-congr}
use joyson_glove_sdk.Protocol.Packet.{
  sum_bytes, size_sub, at, calculate_checksum, calculate_motor_checksum,
}

abbrev pub sum : List ℕ → ℕ
sum [] = 0
sum (x ∷ xs) = x + sum xs

-- The accumulator of the loops, in 32 bits.
wrapped_sum : ℕ → List ℕ → ℕ
wrapped_sum acc [] = acc
wrapped_sum acc (x ∷ xs) = wrapped_sum ((acc + x) % 2 ^ 32) xs

wrapped_sum_byte : (acc : ℕ) (xs : List ℕ) → wrapped_sum acc xs % 256 ≡ (acc + sum xs) % 256
unfolding wrapped_sum
wrapped_sum_byte acc [] = omega arith
wrapped_sum_byte acc (x ∷ xs) = omega (arith, wrapped_sum_byte ((acc + x) % 2 ^ 32) xs)

sum_bytes-cons :
    (x : ℕ) (v : List ℕ) (rounds i acc : ℕ)
    → sum_bytes (x ∷ v) (suc i) rounds acc ≡ sum_bytes v i rounds acc
unfolding sum_bytes
sum_bytes-cons x v zero i acc = refl
sum_bytes-cons x v (suc rounds) i acc =
    >>=-congr (at v i) _ _
      λ byte. simp add-one (sum_bytes-cons x v rounds (suc i) ((acc + byte) % 2 ^ 32))

sum_bytes-append :
    (xs ys : List ℕ) (acc : ℕ) → sum_bytes (xs ++ ys) 0 (length xs) acc ≡ ok (wrapped_sum acc xs)
unfolding sum_bytes wrapped_sum
sum_bytes-append [] ys acc = refl
sum_bytes-append (x ∷ xs) ys acc =
    sum_bytes-cons x (xs ++ ys) (length xs) 0 ((acc + x) % 2 ^ 32)
    ∙ sum_bytes-append xs ys ((acc + x) % 2 ^ 32)

-- Over all but the last two bytes.
pub calculate_checksum-sum :
    (xs : List ℕ) (a b : ℕ) → calculate_checksum (xs ++ a ∷ b ∷ []) ≡ ok (sum xs % 256)
unfolding calculate_checksum
calculate_checksum-sum xs a b =
    rw
      (
        rounds,
        sum_bytes-append xs (a ∷ b ∷ []) 0,
        bit_and_byte (wrapped_sum 0 xs),
        wrapped_sum_byte 0 xs,
      )
      (ap ok (omega arith))
  where
    rounds : size_sub (length (xs ++ a ∷ b ∷ [])) 2 ≡ length xs
    rounds = ground (arith, length-append xs (a ∷ b ∷ []))

-- Over all but the first two bytes and the last one.
pub calculate_motor_checksum-sum :
    (a b k : ℕ) (xs : List ℕ)
    → calculate_motor_checksum (a ∷ b ∷ (xs ++ k ∷ [])) ≡ ok (sum xs % 256)
unfolding calculate_motor_checksum
calculate_motor_checksum-sum a b k xs =
    rw
      (
        rounds,
        sum_bytes-cons a (b ∷ (xs ++ k ∷ [])) (length xs) 1 0,
        sum_bytes-cons b (xs ++ k ∷ []) (length xs) 0 0,
        sum_bytes-append xs (k ∷ []) 0,
        bit_and_byte (wrapped_sum 0 xs),
        wrapped_sum_byte 0 xs,
      )
      (ap ok (omega arith))
  where
    rounds : size_sub (length (a ∷ b ∷ (xs ++ k ∷ []))) 1 - 2 ≡ length xs
    rounds = ground (arith, length-append xs (k ∷ []))
