-- ===== src/Encoder/Keeps.antt =====
-- The methods of `EncoderReader`, src/encoder_reader.cpp, against an invariant of the link.
use joyson_glove_sdk.Prelude.{
  ◌≡◌, ◌<◌, ◌^◌, true, ◌∷◌, ◌++◌, replicate, refl, sym, subst, Bool, inl, inr, ◌⊎◌, false, Each,
  List, length,
}
use joyson_glove_sdk.Prelude.Float.{Float}
use joyson_glove_sdk.Prelude.Monad.{Yields, Total-Yields, Yields-mono}
use joyson_glove_sdk.Prelude.State.{
  pure, lift, Returns, Returns->>=, Returns-mono, Returns-lift, Returns-on_option,
}
use joyson_glove_sdk.Protocol.Packet.{Packet}
use joyson_glove_sdk.Protocol.Codec.{encode_read_all_encoders}
use joyson_glove_sdk.Protocol.Codec.Requests.{encode, encode-Sends, read_all_encoders}
use joyson_glove_sdk.Protocol.Parse.{EncoderData, parse_encoder_data}
use joyson_glove_sdk.Protocol.Parse.Encoder.{IsReading, parse_encoder_data-IsReading}
use joyson_glove_sdk.Udp.Os.{Os}
use joyson_glove_sdk.Udp.Client.{Link}
use joyson_glove_sdk.Device.{Device, returned, finish_initialize}
use joyson_glove_sdk.Device.Rounds.{rounds, Ran}
use joyson_glove_sdk.Device.Tallies.{repeat_updates-IsTallied}
use joyson_glove_sdk.Device.Keeps.{
  IsStable, IsSound, fetch-IsSound, Starts, finish_initialize-IsSound,
}
use joyson_glove_sdk.Encoder.{
  EncoderReader, EncoderReaderConfig, read_encoders, initialize, get_cached_data, get_cached_angles,
  update_once, update_loop,
}
use joyson_glove_sdk.Encoder.Calibration.{adc_to_voltages, voltages_to_angles}
use joyson_glove_sdk.Encoder.Conversion.{
  IsCalibration, adc_to_voltages-Yields, voltages_to_angles-Yields,
}

-- The configuration stays, and every array has an element for every channel.
pub record IsReader {F : Type 0} (config : EncoderReaderConfig) (r : EncoderReader F) : Type 0 where
  pub same : r.config ≡ config
  pub cached : IsReading r.cached_data
  pub calibrated : IsCalibration r.calibration

encode_read_all_encoders-Yields : Yields encode_read_all_encoders (λ _. Unit {0})
unfolding encode
encode_read_all_encoders-Yields =
    let (p, e, bytes, back) = encode-Sends read_all_encoders tt in
    Yields-mono encode_read_all_encoders _ _ (Total-Yields encode_read_all_encoders (p, e))
      (λ _ _. tt)

module _ {os : Os} {F : Type 0} ⦃fl : Float F⦄ {P : Link os → Type 0} {R : Packet → Type 0}
    (stable : IsStable P R) where
  pub read_encoders-IsReading :
      (Q : EncoderReader F → Type 0) (d : Device os (EncoderReader F))
      → IsSound P Q d
      → Returns (read_encoders d) (λ value t. IsSound P Q t × Each IsReading value)
  unfolding read_encoders
  read_encoders-IsReading Q d h =
      fetch-IsSound Q stable IsReading encode_read_all_encoders parse_encoder_data d
        encode_read_all_encoders-Yields (λ now p _. parse_encoder_data-IsReading now p) h

  module _ (config : EncoderReaderConfig) where
    pub store :
        (data_read : EncoderData) (d : Device os (EncoderReader F))
        → IsReading data_read
        → IsSound P (IsReader config) d
        → IsSound P
            (IsReader config)
            (record d { object = record d.object { cached_data = data_read } })
    store data_read d r h = record {
      link = h.link;
      thread = h.thread;
      object = record { same = h.object.same; cached = r; calibrated = h.object.calibrated };
    }

    -- Whatever the board answers, `initialize` returns; it throws only where the configuration says that
    -- the thread is to start and the system makes none, and then no thread runs; after `true` the
    -- thread runs if the configuration says so.
    pub initialize-Starts :
        (d : Device os (EncoderReader F))
        → IsSound P (IsReader config) d
        → Returns (initialize d) (λ r t.
          IsSound P (IsReader config) t
          × ((r ≡ returned false) ⊎ Starts config.auto_start_thread r t))
    unfolding initialize
    initialize-Starts d h =
        Returns->>= read_encoders _
          (λ value t. IsSound P (IsReader config) t × Each IsReading value) _ d
          (read_encoders-IsReading (IsReader config) d h)
          (λ value t k.
            Returns-on_option (pure (returned false)) _ value (Each IsReading) _ t (k.1)
              (λ _. (k.0, inl refl))
              (λ data_read r.
                let u : Device os (EncoderReader F) = record t {
                  object = record t.object { cached_data = data_read };
                } in
                Returns-mono (finish_initialize t.object.config.auto_start_thread u) _ _
                  (finish_initialize-IsSound (IsReader config) stable
                    t.object.config.auto_start_thread u (store data_read t r (k.0)))
                  (λ r v s. (
                    s.0,
                    inr (subst (λ c. Starts c.auto_start_thread r v) (k.0.object.same) (s.1)),
                  ))))

    -- An update returns, with sixteen 16-bit values in the cache, and where it returns `false` the reader
    -- is as it was.
    pub update_once-IsSound :
        (d : Device os (EncoderReader F))
        → IsSound P (IsReader config) d
        → Returns
            (update_once d)
            (λ done t. IsSound P (IsReader config) t × (done ≡ false → t.object ≡ d.object))
    unfolding update_once
    update_once-IsSound d h =
        Returns->>= read_encoders _
          (λ value t. IsSound P (λ r. r ≡ d.object) t × Each IsReading value) _ d
          (read_encoders-IsReading (λ r. r ≡ d.object) d
            (record { link = h.link; object = refl; thread = h.thread }))
          (λ value t k.
            let sound : IsSound P (IsReader config) t = record {
              link = k.0.link;
              object = subst (IsReader config) (sym k.0.object) h.object;
              thread = k.0.thread;
            } in
            Returns-on_option (pure false) _ value (Each IsReading) _ t (k.1)
              (λ _. (sound, λ _. k.0.object)) (λ data_read r. (store data_read t r sound, λ e. cc)))

    -- Whatever the loads of the flag return, where they allow fewer than 2^31 rounds, the loop of the
    -- update thread makes that many and ends with sixteen 16-bit values in the cache. Its `int` has
    -- not overflowed, and has counted just the failed rounds behind the last one that succeeded; where
    -- none succeeded, it has counted every round and the reader is as it was.
    pub update_loop-IsTallied :
        (loads : List Bool) (d : Device os (EncoderReader F))
        → rounds loads < 2 ^ 31
        → IsSound P (IsReader config) d
        → Returns (update_loop loads d) (λ failures t.
          IsSound P (IsReader config) t
          × (results : List Bool) × (length results ≡ rounds loads)
          × Ran (λ (r : EncoderReader F). r.config.update_interval) update_once d results t
          × (((results ≡ replicate failures false) × (t.object ≡ d.object))
              ⊎ ((front : List Bool) × (results ≡ front ++ true ∷ replicate failures false))))
    unfolding update_loop
    update_loop-IsTallied loads d fits h =
        repeat_updates-IsTallied (IsReader config) stable (λ r. r.config.update_interval)
          update_once update_once-IsSound loads d fits h

    pub get_cached_angles-IsSound :
        (d : Device os (EncoderReader F))
        → IsSound P (IsReader config) d
        → Returns (get_cached_angles d) (λ angles t. (t ≡ d) × (length angles ≡ 16))
    unfolding get_cached_angles get_cached_data
    get_cached_angles-IsSound d h =
        Returns->>= (lift (adc_to_voltages d.object.cached_data.adc_values)) _
          (λ (vs : List F) t. (t ≡ d) × (length vs ≡ 16)) _ d
          (Returns-lift (adc_to_voltages d.object.cached_data.adc_values) _ _ d
            (adc_to_voltages-Yields F d.object.cached_data.adc_values h.object.cached.channels
              h.object.cached.typed)
            (λ vs k. (refl, k.0)))
          (λ vs t k.
            subst
              (λ t.
                Returns (lift (voltages_to_angles t.object.calibration vs) t)
                  (λ angles u. (u ≡ d) × (length angles ≡ 16)))
              (sym (k.0))
              (Returns-lift (voltages_to_angles d.object.calibration vs) _ _ d
                (voltages_to_angles-Yields d.object.calibration vs h.object.calibrated (k.1))
                (λ angles m. (refl, m))))
