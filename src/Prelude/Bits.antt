-- ===== src/Prelude/Bits.antt =====
-- `&`, `|` and the shifts of the source as arithmetic: masking by 0xFF and joining disjoint bits.
use Prim.Native.Nat.{
  ℕ, zero, suc, ◌+◌, ◌*◌, ◌/◌, ◌%◌, ◌^◌, ◌≤◌, ◌<◌, min, max, bit_and, bit_or, digits,
  bit_and-bitwise, bit_or-bitwise,
}
use mathlib.Core.Path.{◌≡◌, refl, ap}
use mathlib.Core.List.{List, ◌∷◌}
use native.Mathlib.Nat.{pow-suc}
use native.Mathlib.Omega.{arith}

-- The two bytes of a word in front of a rest, low byte first and high byte first.
abbrev pub word_le : ℕ → List ℕ → List ℕ
word_le w rest = w % 256 ∷ w / 256 ∷ rest

abbrev pub word_be : ℕ → List ℕ → List ℕ
word_be w rest = w / 256 ∷ w % 256 ∷ rest

-- Fuel beyond the first operand does not change the digits.
digits_enough :
    (z : ℕ → ℕ) (f : ℕ → ℕ → ℕ) (n a b : ℕ) → a ≤ n → digits z f n a b ≡ digits z f a a b
digits_enough z f n a b h = both n a a b h (omega arith)
  where
    both : (n m a b : ℕ) → a ≤ n → a ≤ m → digits z f n a b ≡ digits z f m a b
    both zero zero a b p q = refl
    both zero (suc m) zero b p q = refl
    both zero (suc m) (suc a) b p q = absurd (omega arith)
    both (suc n) zero zero b p q = refl
    both (suc n) zero (suc a) b p q = absurd (omega arith)
    both (suc n) (suc m) zero b p q = refl
    both (suc n) (suc m) (suc a) b p q =
        ap (λ (t : ℕ). t * 2 + f (suc a % 2) (b % 2))
          (both n m (suc a / 2) (b / 2) (omega arith) (omega arith))

bit_and_digit : (a b : ℕ) → bit_and a b ≡ bit_and (a / 2) (b / 2) * 2 + min (a % 2) (b % 2)
bit_and_digit zero b = omega (arith, bit_and-bitwise 0 b, bit_and-bitwise 0 (b / 2))
bit_and_digit (suc a) b = omega (
  arith,
  bit_and-bitwise (suc a) b,
  bit_and-bitwise (suc a / 2) (b / 2),
  digits_enough (λ b. 0) min a (suc a / 2) (b / 2) (omega arith),
)

bit_or_digit : (a b : ℕ) → bit_or a b ≡ bit_or (a / 2) (b / 2) * 2 + max (a % 2) (b % 2)
bit_or_digit zero b = omega (arith, bit_or-bitwise 0 b, bit_or-bitwise 0 (b / 2))
bit_or_digit (suc a) b = omega (
  arith,
  bit_or-bitwise (suc a) b,
  bit_or-bitwise (suc a / 2) (b / 2),
  digits_enough (λ b. b) max a (suc a / 2) (b / 2) (omega arith),
)

bit_or_fuel : (n a : ℕ) → a ≤ n → bit_or a 0 ≡ a
bit_or_fuel n zero h = refl
bit_or_fuel zero (suc a) h = absurd (omega arith)
bit_or_fuel (suc n) (suc a) h =
    omega (arith, bit_or_digit (suc a) 0, bit_or_fuel n (suc a / 2) (omega arith))

bit_and_fuel : (n a : ℕ) → a ≤ n → bit_and a 0 ≡ 0
bit_and_fuel n zero h = refl
bit_and_fuel zero (suc a) h = absurd (omega arith)
bit_and_fuel (suc n) (suc a) h =
    omega (arith, bit_and_digit (suc a) 0, bit_and_fuel n (suc a / 2) (omega arith))

bit_and-zero : (a : ℕ) → bit_and a 0 ≡ 0
bit_and-zero a = bit_and_fuel a a (omega arith)

-- A mask gains a one at its low end.
bit_and_one_more : (m a : ℕ) → bit_and a (m * 2 + 1) ≡ bit_and (a / 2) m * 2 + a % 2
bit_and_one_more m a = ground (arith, bit_and_digit a (m * 2 + 1))

bit_and_nibble : (a : ℕ) → bit_and a 15 ≡ a % 16
bit_and_nibble a = omega (
  arith,
  bit_and_one_more 7 a,
  bit_and_one_more 3 (a / 2),
  bit_and_one_more 1 (a / 2 / 2),
  bit_and_one_more 0 (a / 2 / 2 / 2),
  bit_and-zero (a / 2 / 2 / 2 / 2),
)

-- `x & 0xFF` keeps the low byte.
pub bit_and_byte : (a : ℕ) → bit_and a 255 ≡ a % 256
bit_and_byte a = omega (
  arith,
  bit_and_one_more 127 a,
  bit_and_one_more 63 (a / 2),
  bit_and_one_more 31 (a / 2 / 2),
  bit_and_one_more 15 (a / 2 / 2 / 2),
  bit_and_nibble (a / 2 / 2 / 2 / 2),
)

shift_suc : (q k : ℕ) → q * 2 ^ suc k ≡ q * 2 ^ k * 2
shift_suc q k = omega (arith, ap (λ (t : ℕ). q * t) (pow-suc 2 k))

-- `(q << k) | r` joins the fields when `r` has `k` bits.
pub bit_or_high : (k q r : ℕ) → r < 2 ^ k → bit_or (q * 2 ^ k) r ≡ q * 2 ^ k + r
bit_or_high zero q r h = ground (arith, bit_or_fuel q q (omega arith))
bit_or_high (suc k) q r h = ground (
  arith,
  bit_or_digit (q * 2 ^ suc k) r,
  shift_suc q k,
  pow-suc 2 k,
  bit_or_high k q (r / 2) (omega (arith, pow-suc 2 k)),
)

-- `r | (q << k)` is the same number.
pub bit_or_low : (k q r : ℕ) → r < 2 ^ k → bit_or r (q * 2 ^ k) ≡ q * 2 ^ k + r
bit_or_low zero q r h = ground (arith, bit_or-bitwise 0 q)
bit_or_low (suc k) q r h = ground (
  arith,
  bit_or_digit r (q * 2 ^ suc k),
  shift_suc q k,
  pow-suc 2 k,
  bit_or_low k q (r / 2) (omega (arith, pow-suc 2 k)),
)
