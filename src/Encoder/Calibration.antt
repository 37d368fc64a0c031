-- ===== src/Encoder/Calibration.antt =====
-- `struct EncoderCalibration` and the conversions of `EncoderReader`:
-- include/joyson_glove/encoder_reader.hpp, src/encoder_reader.cpp.
use joyson_glove_sdk.Prelude.{
  ℕ, zero, suc, ◌+◌, Bool, false, not, List, [], ◌∷◌, get_elem?, replicate, if◌then◌else◌,
}
use joyson_glove_sdk.Prelude.Float.{Float}
use joyson_glove_sdk.Prelude.Monad.{Checked, ok, in_bounds, ◌>>=◌}
use joyson_glove_sdk.Protocol.Constants.{num_encoder_channels}

-- Both arrays have `NUM_ENCODER_CHANNELS` elements.
pub record EncoderCalibration (F : Type 0) : Type 0 where
  pub zero_voltages : List F
  pub scale_factors : List F
  pub is_calibrated : Bool

-- `xs[i]` of a `std::array`
abbrev pub element : {A : Type 0} → List A → ℕ → Checked A
element xs i = in_bounds (get_elem? xs i)

-- A loop that fills a `std::array` of `NUM_ENCODER_CHANNELS`: `rounds` more channels from `i` on.
unfoldable pub fill : {A : Type 0} → (ℕ → Checked A) → ℕ → ℕ → Checked (List A)
fill channel i zero = ok []
fill channel i (suc rounds) = do
  value ← channel i
  rest ← fill channel (i + 1) rounds
  ok (value ∷ rest)

module _ {F : Type 0} ⦃fl : Float F⦄ where
  -- The constructor of `EncoderCalibration`.
  unfoldable pub no_calibration : EncoderCalibration F
  no_calibration = record {
    zero_voltages = replicate num_encoder_channels (fl.of_ℕ 0);
    scale_factors = replicate num_encoder_channels (fl.of_ℕ 1);
    is_calibrated = false;
  }

  unfoldable pub adc_voltage : List ℕ → ℕ → Checked F
  adc_voltage adc_values i = do
    value ← element adc_values i
    ok (fl.div (fl.mul (fl.of_ℕ value) (fl.of_ℕ 4)) (fl.of_ℕ 65536))

  unfoldable pub adc_to_voltages : List ℕ → Checked (List F)
  adc_to_voltages adc_values = fill (adc_voltage adc_values) 0 num_encoder_channels

  unfoldable pub calibrated_voltage : EncoderCalibration F → List F → ℕ → Checked F
  calibrated_voltage c raw_voltages i = do
    raw ← element raw_voltages i
    base ← element c.zero_voltages i
    scale ← element c.scale_factors i
    ok (fl.mul (fl.sub raw base) scale)

  -- Also `apply_calibration`, which takes the lock.
  unfoldable pub apply_calibration_unsafe : EncoderCalibration F → List F → Checked (List F)
  apply_calibration_unsafe c raw_voltages =
      if not c.is_calibrated
      then ok raw_voltages
      else fill (calibrated_voltage c raw_voltages) 0 num_encoder_channels

  unfoldable pub angle : List F → ℕ → Checked F
  angle voltages i = do
    value ← element voltages i
    ok (fl.mul (fl.div value (fl.of_ℕ 4)) (fl.of_ℕ 360))

  unfoldable pub voltages_to_angles : EncoderCalibration F → List F → Checked (List F)
  voltages_to_angles c voltages = do
    calibrated ← apply_calibration_unsafe c voltages
    fill (angle calibrated) 0 num_encoder_channels
