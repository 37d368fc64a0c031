-- ===== src/Encoder/Calibrating.antt =====
-- `calibrate_zero_point` of src/encoder_reader.cpp.
use joyson_glove_sdk.Prelude.{◌≡◌, refl, sym, ap, ◌∙◌, subst, Bool, true, false, Each, List, length}
use joyson_glove_sdk.Prelude.Float.{Float}
use joyson_glove_sdk.Prelude.Monad.{ok, Yields, Yields-mono, Yields-eq}
use joyson_glove_sdk.Prelude.State.{
  pure, lift, ◌>>=◌, Returns, Returns->>=, Returns-lift, Returns-on_option,
}
use joyson_glove_sdk.Protocol.Packet.{Packet}
use joyson_glove_sdk.Protocol.Parse.{EncoderData}
use joyson_glove_sdk.Protocol.Parse.Encoder.{IsReading}
use joyson_glove_sdk.Udp.Os.{Os}
use joyson_glove_sdk.Udp.Client.{Link}
use joyson_glove_sdk.Device.{Device}
use joyson_glove_sdk.Device.Keeps.{IsStable, IsSound}
use joyson_glove_sdk.Encoder.{
  EncoderReader, EncoderReaderConfig, read_encoders, get_cached_data, get_cached_angles,
  calibrate_zero_point,
}
use joyson_glove_sdk.Encoder.Calibration.{adc_to_voltages, voltages_to_angles}
use joyson_glove_sdk.Encoder.Conversion.{adc_to_voltages-Yields}
use joyson_glove_sdk.Encoder.ZeroPoint.{zero_point}
use joyson_glove_sdk.Encoder.ZeroPoint.{CalibrationLaws, AreZero, voltages_to_angles-zero_point}
use joyson_glove_sdk.Encoder.Keeps.{IsReader, read_encoders-IsReading, get_cached_angles-IsSound}

module _ {F : Type 0} ⦃fl : Float F⦄ where
  -- The cached reading is the one that the calibration was made on.
  pub record IsZeroed (r : EncoderReader F) : Type 0 where
    pub voltages : List F
    pub converted : adc_to_voltages r.cached_data.adc_values ≡ ok voltages
    pub calibration : r.calibration ≡ zero_point voltages

module _ {os : Os} {F : Type 0} ⦃fl : Float F⦄ {P : Link os → Type 0} {R : Packet → Type 0}
    (stable : IsStable P R) (config : EncoderReaderConfig) where
  pub calibrate_zero_point-IsSound :
      (d : Device os (EncoderReader F))
      → IsSound P (IsReader config) d
      → Returns (calibrate_zero_point d) (λ done t.
        IsSound P (IsReader config) t
        × (done ≡ true → IsZeroed t.object)
        × (done ≡ false → t.object ≡ d.object))
  unfolding calibrate_zero_point
  calibrate_zero_point-IsSound d h =
      Returns->>= read_encoders _
        (λ value t. IsSound P (λ r. r ≡ d.object) t × Each IsReading value) _ d
        (read_encoders-IsReading stable (λ r. r ≡ d.object) d
          (record { link = h.link; object = refl; thread = h.thread }))
        (λ value t k.
          let reader : IsReader config t.object =
            subst (IsReader config) (sym k.0.object) h.object in
          Returns-on_option (pure false) _ value (Each IsReading) _ t (k.1)
            (λ _. (
              record { link = k.0.link; object = reader; thread = k.0.thread },
              (λ e. cc),
              λ _. k.0.object,
            ))
            (λ data_read r.
              Returns->>= (lift (adc_to_voltages data_read.adc_values)) _
                (λ (vs : List F) u.
                  (u ≡ t) × (length vs ≡ 16) × (adc_to_voltages data_read.adc_values ≡ ok vs))
                _ t
                (Returns-lift (adc_to_voltages data_read.adc_values)
                  (λ vs. (adc_to_voltages data_read.adc_values ≡ ok vs) × (length vs ≡ 16)) _ t
                  (converts data_read r) (λ vs m. (refl, m.1, m.0)))
                (λ vs u m. calibrated vs data_read u r (m.1) (m.2) (
                  subst (IsSound P (IsReader config)) (sym (m.0))
                    (record { link = k.0.link; object = reader; thread = k.0.thread })))))
    where
      converts :
          (data_read : EncoderData)
          → IsReading data_read
          → Yields
              (adc_to_voltages data_read.adc_values)
              (λ (vs : List F). (adc_to_voltages data_read.adc_values ≡ ok vs) × (length vs ≡ 16))
      converts data_read r = Yields-eq (adc_to_voltages data_read.adc_values) _ (
          Yields-mono (adc_to_voltages data_read.adc_values) _ (λ vs. length vs ≡ 16)
            (adc_to_voltages-Yields F data_read.adc_values r.channels r.typed) (λ vs k. k.0))

      calibrated :
          (vs : List F) (data_read : EncoderData) (u : Device os (EncoderReader F))
          → IsReading data_read
          → length vs ≡ 16
          → adc_to_voltages data_read.adc_values ≡ ok vs
          → IsSound P (IsReader config) u
          → Returns
              (pure true (record u {
                object = record u.object { calibration = zero_point vs; cached_data = data_read };
              }))
              (λ done t.
                IsSound P (IsReader config) t
                × (done ≡ true → IsZeroed t.object)
                × (done ≡ false → t.object ≡ d.object))
      calibrated vs data_read u r n e h = (
        record {
          link = h.link;
          thread = h.thread;
          object = record {
            same = h.object.same;
            cached = r;
            calibrated = record { zeros = n; scales = refl };
          };
        },
        λ _. record { voltages = vs; converted = e; calibration = refl },
        λ f. cc,
      )

  zeroed-angles :
      (laws : CalibrationLaws F) (t : Device os (EncoderReader F)) (z : IsZeroed t.object)
      → IsSound P (IsReader config) t
      → Returns (get_cached_angles t) (λ angles _. AreZero angles)
  unfolding get_cached_angles get_cached_data
  zeroed-angles laws t z h =
      Returns->>= (lift (adc_to_voltages t.object.cached_data.adc_values)) _
        (λ (vs : List F) u. (u ≡ t) × (vs ≡ z.voltages)) _ t
        (subst (λ r. Returns (lift r t) (λ (vs : List F) u. (u ≡ t) × (vs ≡ z.voltages)))
          (sym z.converted) (refl, refl))
        (λ vs u k.
          Returns-lift (voltages_to_angles u.object.calibration vs) AreZero _ u
            (subst (λ c. Yields (voltages_to_angles c vs) AreZero)
              (sym (ap (λ u. u.object.calibration) (k.0) ∙ z.calibration))
              (subst (λ v. Yields (voltages_to_angles (zero_point z.voltages) v) AreZero)
                (sym (k.1)) zeros))
            (λ angles m. m))
    where
      zeros : Yields (voltages_to_angles (zero_point z.voltages) z.voltages) AreZero
      zeros =
          subst
            (λ r.
              Yields r (λ (vs : List F). Yields (voltages_to_angles (zero_point vs) vs) AreZero))
            z.converted
            (voltages_to_angles-zero_point laws t.object.cached_data.adc_values
              h.object.cached.channels h.object.cached.typed)

  -- Where the arithmetic of `float` has the laws of `CalibrationLaws`: after a calibration that returns
  -- `true`, the cached angles are 0 on all sixteen channels.
  pub calibrate_zero_point-zero :
      (laws : CalibrationLaws F) (d : Device os (EncoderReader F))
      → IsSound P (IsReader config) d
      → Returns
          ((calibrate_zero_point >>= λ done. get_cached_angles >>= λ angles. pure (done, angles)) d)
          (λ (r : Bool × List F) _. r.0 ≡ true → AreZero (r.1))
  calibrate_zero_point-zero laws d h =
      Returns->>= calibrate_zero_point _ _ _ d (calibrate_zero_point-IsSound d h)
        (λ done t k. by_done done t (k.0) (k.1))
    where
      by_done :
          (done : Bool) (t : Device os (EncoderReader F))
          → IsSound P (IsReader config) t
          → (done ≡ true → IsZeroed t.object)
          → Returns
              ((get_cached_angles >>= λ angles. pure (done, angles)) t)
              (λ (r : Bool × List F) (_ : Device os (EncoderReader F)). r.0 ≡ true → AreZero (r.1))
      by_done true t h z =
          Returns->>= get_cached_angles _ _ _ t (zeroed-angles laws t (z refl) h)
            (λ angles u k _. k)
      by_done false t h z =
          Returns->>= get_cached_angles _ _ _ t (get_cached_angles-IsSound stable config t h)
            (λ angles u k e. cc)
