-- ===== src/Imu/Orientation.antt =====
-- `apply_calibration_unsafe` of src/imu_reader.cpp: the orientation that a calibration was made on, and
-- the yaw on whole degrees.
use joyson_glove_sdk.Prelude.{
  ℕ, ◌+◌, ◌-◌, ◌%◌, ◌<◌, ◌≡◌, refl, ap, ◌∙◌, arith, ◌^◌, Bool, true, false, not, if◌then◌else◌,
}
use joyson_glove_sdk.Prelude.Float.{Float}
use joyson_glove_sdk.Protocol.Parse.{ImuData}
use joyson_glove_sdk.Imu.{ImuCalibration, apply_calibration_unsafe}
use joyson_glove_sdk.Imu.Keeps.{zero_orientation}

-- What the calibration relies on: the difference of a finite number to itself is 0, and 0 + 360 is 360,
-- whose remainder by 360 is 0.
pub record OrientationLaws (F : Type 0) ⦃fl : Float F⦄ : Type 1 where
  pub IsFinite : F → Type 0
  pub sub_self : (x : F) → IsFinite x → fl.sub x x ≡ fl.of_ℕ 0
  pub zero_add : fl.add (fl.of_ℕ 0) (fl.of_ℕ 360) ≡ fl.of_ℕ 360
  pub fmod_self : fl.fmod (fl.of_ℕ 360) (fl.of_ℕ 360) ≡ fl.of_ℕ 0

-- Whole numbers of degrees are exact.
pub record DegreeLaws (F : Type 0) ⦃fl : Float F⦄ : Type 0 where
  pub add_sub :
      (a b : ℕ)
      → a < 360
      → b < 360
      → fl.add (fl.sub (fl.of_ℕ a) (fl.of_ℕ b)) (fl.of_ℕ 360) ≡ fl.of_ℕ (a + 360 - b)
  pub fmod_whole :
      (a b : ℕ)
      → a < 2 ^ 24
      → 0 < b
      → b < 2 ^ 24
      → fl.fmod (fl.of_ℕ a) (fl.of_ℕ b) ≡ fl.of_ℕ (a % b)

module _ {F : Type 0} ⦃fl : Float F⦄ where
  -- The three angles are 0.
  pub record IsLevel (x : ImuData F) : Type 0 where
    pub roll : x.roll ≡ fl.of_ℕ 0
    pub pitch : x.pitch ≡ fl.of_ℕ 0
    pub yaw : x.yaw ≡ fl.of_ℕ 0

  -- Where the arithmetic of `float` has the laws of `OrientationLaws`: a finite reading that is
  -- calibrated on itself has the roll, pitch and yaw 0.
  pub apply_calibration-IsLevel :
      (laws : OrientationLaws F) (raw : ImuData F)
      → laws.IsFinite raw.roll
      → laws.IsFinite raw.pitch
      → laws.IsFinite raw.yaw
      → IsLevel (apply_calibration_unsafe (zero_orientation raw) raw)
  unfolding apply_calibration_unsafe
  apply_calibration-IsLevel laws raw r p y = record {
    roll = laws.sub_self raw.roll r;
    pitch = laws.sub_self raw.pitch p;
    yaw =
        ap (λ z. fl.fmod (fl.add z (fl.of_ℕ 360)) (fl.of_ℕ 360)) (laws.sub_self raw.yaw y)
        ∙ ap (λ z. fl.fmod z (fl.of_ℕ 360)) laws.zero_add
        ∙ laws.fmod_self;
  }

  -- Where the arithmetic of `float` is exact on whole numbers of degrees, as `DegreeLaws` say: with a
  -- yaw and an offset that are whole numbers of degrees in [0, 360), the calibrated yaw is such a number
  -- again, the difference of the two modulo 360.
  pub apply_calibration-yaw :
      (laws : DegreeLaws F) (c : ImuCalibration F) (raw : ImuData F) (a b : ℕ)
      → c.is_calibrated ≡ true
      → raw.yaw ≡ fl.of_ℕ a
      → c.yaw_offset ≡ fl.of_ℕ b
      → a < 360
      → b < 360
      → (n : ℕ) × (n < 360)
        × ((n + b) % 360 ≡ a)
        × ((apply_calibration_unsafe c raw).yaw ≡ fl.of_ℕ n)
  unfolding apply_calibration_unsafe
  apply_calibration-yaw laws c raw a b e y o small_a small_b = (
    (a + 360 - b) % 360,
    omega arith,
    omega arith,
    chosen c.is_calibrated raw _ e
        ∙ ap (λ z. fl.fmod (fl.add (fl.sub z c.yaw_offset) (fl.of_ℕ 360)) (fl.of_ℕ 360)) y
        ∙ ap (λ z. fl.fmod (fl.add (fl.sub (fl.of_ℕ a) z) (fl.of_ℕ 360)) (fl.of_ℕ 360)) o
        ∙ ap (λ z. fl.fmod z (fl.of_ℕ 360)) (laws.add_sub a b small_a small_b)
        ∙ laws.fmod_whole (a + 360 - b) 360 (omega arith) (omega arith) (omega arith),
  )
    where
      chosen : (f : Bool) (x y : ImuData F) → f ≡ true → (if not f then x else y).yaw ≡ y.yaw
      chosen true x y e = refl
      chosen false x y e = cc
