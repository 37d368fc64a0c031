-- ===== src/Prelude/Float.antt =====
-- `float`, which the source only stores, converts and computes with: the operations that it uses,
-- over a type that is left open.
use joyson_glove_sdk.Prelude.{ℕ}

pub record Float (F : Type 0) : Type 0 where
  -- The value of a 32-bit pattern, as `std::memcpy` into a `float` gives it.
  pub of_bits : ℕ → F
  -- `static_cast<float>`, and the literals, all of which are whole numbers.
  pub of_ℕ : ℕ → F
  pub add : F → F → F
  pub sub : F → F → F
  pub mul : F → F → F
  pub div : F → F → F
  pub fmod : F → F → F
