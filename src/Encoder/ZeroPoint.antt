-- ===== src/Encoder/ZeroPoint.antt =====
-- The zero point of `EncoderReader`, src/encoder_reader.cpp: the angles of the reading that a
-- calibration was made on.
use joyson_glove_sdk.Prelude.{
  ℕ, ◌^◌, ◌<◌, ◌≡◌, refl, sym, ap, ◌∙◌, arith, true, List, All, All-replicate, length, replicate,
}
use joyson_glove_sdk.Prelude.Float.{Float}
use joyson_glove_sdk.Prelude.Monad.{ok, Yields, Yields->>=, Yields-mono}
use joyson_glove_sdk.Encoder.Calibration.{
  EncoderCalibration, element, adc_to_voltages, calibrated_voltage, apply_calibration_unsafe, angle,
  voltages_to_angles,
}
use joyson_glove_sdk.Encoder.Conversion.{
  fill-Yields, element-Yields, voltage, IsVoltage, adc_to_voltages-Yields,
}

-- What the calibration relies on: the difference of a voltage to itself is 0, and 0 stays 0 where it
-- is multiplied by a whole number below 2^24 or divided by a positive one.
pub record CalibrationLaws (F : Type 0) ⦃fl : Float F⦄ : Type 0 where
  pub sub_self : (n : ℕ) → n < 2 ^ 16 → fl.sub (voltage n) (voltage n) ≡ fl.of_ℕ 0
  pub zero_mul : (n : ℕ) → n < 2 ^ 24 → fl.mul (fl.of_ℕ 0) (fl.of_ℕ n) ≡ fl.of_ℕ 0
  pub zero_div : (n : ℕ) → 0 < n → n < 2 ^ 24 → fl.div (fl.of_ℕ 0) (fl.of_ℕ n) ≡ fl.of_ℕ 0

module _ {F : Type 0} ⦃fl : Float F⦄ where
  -- The angle 0 on all channels.
  abbrev pub AreZero : List F → Type 0
  AreZero angles = (length angles ≡ 16) × All (λ a. a ≡ fl.of_ℕ 0) angles

  -- The calibration on some voltages.
  abbrev pub zero_point : List F → EncoderCalibration F
  zero_point vs = record {
    zero_voltages = vs;
    scale_factors = replicate 16 (fl.of_ℕ 1);
    is_calibrated = true;
  }

module _ {F : Type 0} ⦃fl : Float F⦄ (laws : CalibrationLaws F) where
  ones : All (λ (x : F). x ≡ fl.of_ℕ 1) (replicate 16 (fl.of_ℕ 1))
  ones = All-replicate (λ (x : F). x ≡ fl.of_ℕ 1) 16 (fl.of_ℕ 1) refl

  same_voltage-zero :
      (v w x : F) → IsVoltage v → v ≡ w → x ≡ fl.of_ℕ 1 → fl.mul (fl.sub v w) x ≡ fl.of_ℕ 0
  same_voltage-zero v w x (n, b, e) same one =
      ap (λ w. fl.mul (fl.sub v w) x) (sym same)
      ∙ ap (λ v. fl.mul (fl.sub v v) x) e
      ∙ ap (λ z. fl.mul z x) (laws.sub_self n b)
      ∙ ap (λ x. fl.mul (fl.of_ℕ 0) x) one
      ∙ laws.zero_mul 1 (omega arith)

  calibrated-zeros :
      (vs : List F)
      → length vs ≡ 16
      → All IsVoltage vs
      → Yields
          (apply_calibration_unsafe (zero_point vs) vs)
          (λ ws. (length ws ≡ 16) × All (λ w. w ≡ fl.of_ℕ 0) ws)
  unfolding apply_calibration_unsafe calibrated_voltage
  calibrated-zeros vs e h =
      fill-Yields (calibrated_voltage (zero_point vs) vs) (λ w. w ≡ fl.of_ℕ 0) 0 16
        (λ i b.
          Yields->>= (element vs i) _ (λ v. (element vs i ≡ ok v) × IsVoltage v) _
            (element-Yields vs IsVoltage i h (omega (arith, e)))
            (λ v k.
              Yields->>= (element vs i) _ (λ w. (element vs i ≡ ok w) × IsVoltage w) _
                (element-Yields vs IsVoltage i h (omega (arith, e)))
                (λ w m.
                  Yields->>= (element (replicate 16 (fl.of_ℕ 1)) i) _
                    (λ x. (element (replicate 16 (fl.of_ℕ 1)) i ≡ ok x) × (x ≡ fl.of_ℕ 1)) _
                    (element-Yields (replicate 16 (fl.of_ℕ 1)) (λ x. x ≡ fl.of_ℕ 1) i ones b)
                    (λ x o. same_voltage-zero v w x (k.1) (ok_injective (sym (k.0) ∙ m.0)) (o.1)))))
    where
      ok_injective : {v w : F} → ok v ≡ ok w → v ≡ w
      ok_injective e = cc

  -- The reading that a calibration was made on has the angle 0 on every channel.
  pub voltages_to_angles-zero_point :
      (adc : List ℕ)
      → length adc ≡ 16
      → All (λ n. n < 2 ^ 16) adc
      → Yields
          (adc_to_voltages adc)
          (λ (vs : List F). Yields (voltages_to_angles (zero_point vs) vs) AreZero)
  unfolding voltages_to_angles angle
  voltages_to_angles-zero_point adc e h =
      Yields-mono (adc_to_voltages adc) (λ (vs : List F). (length vs ≡ 16) × All IsVoltage vs) _
        (adc_to_voltages-Yields F adc e h)
        (λ vs k.
          Yields->>= (apply_calibration_unsafe (zero_point vs) vs) _ _ _
            (calibrated-zeros vs (k.0) (k.1))
            (λ ws m.
              fill-Yields (angle ws) (λ a. a ≡ fl.of_ℕ 0) 0 16
                (λ i b.
                  Yields->>= (element ws i) _ (λ w. (element ws i ≡ ok w) × (w ≡ fl.of_ℕ 0)) _
                    (element-Yields ws (λ w. w ≡ fl.of_ℕ 0) i (m.1) (omega (arith, m.0)))
                    (λ w z.
                      ap (λ w. fl.mul (fl.div w (fl.of_ℕ 4)) (fl.of_ℕ 360)) (z.1)
                      ∙ ap (λ w. fl.mul w (fl.of_ℕ 360))
                          (laws.zero_div 4 (omega arith) (omega arith))
                      ∙ laws.zero_mul 360 (omega arith)))))
