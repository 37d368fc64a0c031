-- ===== src/Encoder/Conversion.antt =====
-- The conversions of `EncoderReader`, src/encoder_reader.cpp: they stay inside their arrays, and what
-- they give for the reading that they were calibrated on.
use joyson_glove_sdk.Prelude.{
  ℕ, zero, suc, ◌+◌, ◌^◌, ◌<◌, ◌≡◌, refl, ap, arith, Bool, true, false, not, List, [], ◌∷◌, All,
  length, if◌then◌else◌,
}
use joyson_glove_sdk.Prelude.Float.{Float}
use joyson_glove_sdk.Prelude.Monad.{Checked, ok, Yields, Yields->>=, Yields-mono}
use joyson_glove_sdk.Encoder.Calibration.{
  EncoderCalibration, element, fill, adc_voltage, adc_to_voltages, calibrated_voltage,
  apply_calibration_unsafe, angle, voltages_to_angles,
}

-- The loop fills so many channels, each with a value that the channel's body gives.
pub fill-Yields :
    {A : Type 0} (channel : ℕ → Checked A) (P : A → Type 0) (i rounds : ℕ)
    → ((j : ℕ) → j < i + rounds → Yields (channel j) P)
    → Yields (fill channel i rounds) (λ xs. (length xs ≡ rounds) × All P xs)
unfolding fill
fill-Yields channel P i zero h = (refl, tt)
fill-Yields channel P i (suc rounds) h = Yields->>= (channel i) _ P _ (h i (omega arith)) (λ a p.
    Yields->>= (fill channel (i + 1) rounds) _ (λ xs. (length xs ≡ rounds) × All P xs) _
      (fill-Yields channel P (i + 1) rounds (λ j b. h j (omega arith)))
      (λ xs k. (ap suc (k.0), (p, k.1))))

-- An element of an array whose elements all satisfy `P`.
pub element-Yields :
    {A : Type 0} (xs : List A) (P : A → Type 0) (i : ℕ)
    → All P xs
    → i < length xs
    → Yields (element xs i) (λ a. (element xs i ≡ ok a) × P a)
element-Yields [] P i h k = absurd (omega arith)
element-Yields (x ∷ xs) P zero h k = (refl, h.0)
element-Yields (x ∷ xs) P (suc i) h k = element-Yields xs P i (h.1) (omega arith)

pub All-any : {A : Type 0} (xs : List A) → All (λ _. Unit {0}) xs
All-any [] = tt
All-any (x ∷ xs) = (tt, All-any xs)

element-total :
    {A : Type 0} (xs : List A) (i : ℕ)
    → length xs ≡ 16
    → i < 0 + 16
    → Yields (element xs i) (λ _. Unit {0})
element-total xs i e h =
    Yields-mono (element xs i) _ _ (element-Yields xs (λ _. Unit) i (All-any xs) (omega (arith, e)))
      (λ _ k. k.1)

-- The arrays of a calibration have an element for every channel.
pub record IsCalibration {F : Type 0} (c : EncoderCalibration F) : Type 0 where
  pub zeros : length c.zero_voltages ≡ 16
  pub scales : length c.scale_factors ≡ 16

module _ {F : Type 0} ⦃fl : Float F⦄ where
  -- The voltage of a reading.
  abbrev pub voltage : ℕ → F
  voltage n = fl.div (fl.mul (fl.of_ℕ n) (fl.of_ℕ 4)) (fl.of_ℕ 65536)

  -- The voltage of a 16-bit reading.
  abbrev pub IsVoltage : F → Type 0
  IsVoltage v = (n : ℕ) × (n < 2 ^ 16) × (v ≡ voltage n)

  apply_calibration-Yields :
      (c : EncoderCalibration F) (vs : List F)
      → IsCalibration c
      → length vs ≡ 16
      → Yields (apply_calibration_unsafe c vs) (λ ws. length ws ≡ 16)
  unfolding apply_calibration_unsafe calibrated_voltage
  apply_calibration-Yields c vs h e = by_flag c.is_calibrated
    where
      by_flag :
          (b : Bool)
          → Yields
              (if not b then ok vs else fill (calibrated_voltage c vs) 0 16)
              (λ ws. length ws ≡ 16)
      by_flag false = e
      by_flag true =
          Yields-mono (fill (calibrated_voltage c vs) 0 16) _ _
            (fill-Yields (calibrated_voltage c vs) (λ _. Unit {0}) 0 16
              (λ i b.
                Yields->>= (element vs i) _ (λ _. Unit) _ (element-total vs i e b)
                  (λ _ _.
                    Yields->>= (element c.zero_voltages i) _ (λ _. Unit) _
                      (element-total c.zero_voltages i h.zeros b)
                      (λ _ _.
                        Yields->>= (element c.scale_factors i) _ (λ _. Unit) _
                          (element-total c.scale_factors i h.scales b) (λ _ _. tt)))))
            (λ ws k. k.0)

  pub voltages_to_angles-Yields :
      (c : EncoderCalibration F) (vs : List F)
      → IsCalibration c
      → length vs ≡ 16
      → Yields (voltages_to_angles c vs) (λ angles. length angles ≡ 16)
  unfolding voltages_to_angles angle
  voltages_to_angles-Yields c vs h e =
      Yields->>= (apply_calibration_unsafe c vs) _ (λ ws. length ws ≡ 16) _
        (apply_calibration-Yields c vs h e)
        (λ ws k.
          Yields-mono (fill (angle ws) 0 16) _ _
            (fill-Yields (angle ws) (λ _. Unit {0}) 0 16
              (λ i b.
                Yields->>= (element ws i) _ (λ _. Unit) _ (element-total ws i k b) (λ _ _. tt)))
            (λ _ m. m.0))

module _ (F : Type 0) ⦃fl : Float F⦄ where
  pub adc_to_voltages-Yields :
      (adc : List ℕ)
      → length adc ≡ 16
      → All (λ n. n < 2 ^ 16) adc
      → Yields (adc_to_voltages adc) (λ (vs : List F). (length vs ≡ 16) × All IsVoltage vs)
  unfolding adc_to_voltages adc_voltage
  adc_to_voltages-Yields adc e h = fill-Yields (adc_voltage adc) IsVoltage 0 16 (λ i b.
      Yields->>= (element adc i) _ (λ n. (element adc i ≡ ok n) × (n < 2 ^ 16)) _
        (element-Yields adc (λ n. n < 2 ^ 16) i h (omega (arith, e))) (λ n k. (n, k.1, refl)))
