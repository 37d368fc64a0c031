-- ===== src/Imu/Keeps.antt =====
-- The methods of `ImuReader`, src/imu_reader.cpp, against an invariant of the link.
use joyson_glove_sdk.Prelude.{
  ◌≡◌, refl, sym, subst, inl, inr, ◌⊎◌, ◌<◌, ◌^◌, ◌∷◌, ◌++◌, length, replicate, Bool, List, true,
  false, Each, Option, none, some,
}
use joyson_glove_sdk.Prelude.Float.{Float}
use joyson_glove_sdk.Prelude.Monad.{Yields, Total-Yields, Yields-mono}
use joyson_glove_sdk.Prelude.State.{pure, Returns, Returns->>=, Returns-mono, Returns-on_option}
use joyson_glove_sdk.Protocol.Packet.{Packet}
use joyson_glove_sdk.Protocol.Codec.{encode_read_imu}
use joyson_glove_sdk.Protocol.Codec.Requests.{encode, encode-Sends, read_imu}
use joyson_glove_sdk.Protocol.Parse.{ImuData, parse_imu_data}
use joyson_glove_sdk.Protocol.Parse.Imu.{parse_imu_data-Total}
use joyson_glove_sdk.Udp.Os.{Os}
use joyson_glove_sdk.Udp.Client.{Link}
use joyson_glove_sdk.Device.{Device, returned, finish_initialize}
use joyson_glove_sdk.Device.Rounds.{rounds, Ran}
use joyson_glove_sdk.Device.Tallies.{repeat_updates-IsTallied}
use joyson_glove_sdk.Device.Keeps.{
  IsStable, IsSound, fetch-IsSound, Starts, finish_initialize-IsSound,
}
use joyson_glove_sdk.Imu.{
  ImuReader, ImuReaderConfig, ImuCalibration, apply_calibration_unsafe, initialize,
  calibrate_zero_orientation, update_once, update_loop,
}
use joyson_glove_sdk.Imu

-- The configuration stays.
pub record IsReader {F : Type 0} (config : ImuReaderConfig) (r : ImuReader F) : Type 0 where
  pub same : r.config ≡ config

-- The calibration on a reading.
abbrev pub zero_orientation : {F : Type 0} → ImuData F → ImuCalibration F
zero_orientation raw = record {
  roll_offset = raw.roll;
  pitch_offset = raw.pitch;
  yaw_offset = raw.yaw;
  is_calibrated = true;
}

encode_read_imu-Yields : Yields encode_read_imu (λ _. Unit {0})
unfolding encode
encode_read_imu-Yields =
    let (p, e, bytes, back) = encode-Sends read_imu tt in
    Yields-mono encode_read_imu _ _ (Total-Yields encode_read_imu (p, e)) (λ _ _. tt)

module _ {F : Type 0} ⦃fl : Float F⦄ where
  -- The cached data are those of a reading, calibrated on that reading.
  pub record IsZeroed (r : ImuReader F) : Type 0 where
    pub raw : ImuData F
    pub calibration : r.calibration ≡ zero_orientation raw
    pub cached : r.cached_data ≡ apply_calibration_unsafe (zero_orientation raw) raw

module _ {os : Os} {F : Type 0} ⦃fl : Float F⦄ {P : Link os → Type 0} {R : Packet → Type 0}
    (stable : IsStable P R) where
  read_imu-IsSound :
      (Q : ImuReader F → Type 0) (d : Device os (ImuReader F))
      → IsSound P Q d
      → Returns (Imu.read_imu d) (λ _ t. IsSound P Q t)
  unfolding Imu.read_imu
  read_imu-IsSound Q d h =
      Returns-mono (Imu.read_imu d) _ _
        (fetch-IsSound Q stable (λ _. Unit {0}) encode_read_imu parse_imu_data d
          encode_read_imu-Yields
          (λ now p _.
            Yields-mono (parse_imu_data now p) _ _
              (Total-Yields (parse_imu_data now p) (parse_imu_data-Total now p)) (λ o _. any o))
          h)
        (λ _ t k. k.0)
    where
      any : (o : Option (ImuData F)) → Each (λ _. Unit {0}) o
      any none = tt
      any (some _) = tt

  -- A reading, with the reader as it was.
  read_imu-same :
      (d : Device os (ImuReader F)) (config : ImuReaderConfig)
      → IsSound P (IsReader config) d
      → Returns (Imu.read_imu d) (λ _ t. IsSound P (IsReader config) t × (t.object ≡ d.object))
  read_imu-same d config h =
      Returns-mono (Imu.read_imu d) _ _
        (read_imu-IsSound (λ r. r ≡ d.object) d
          (record { link = h.link; object = refl; thread = h.thread }))
        (λ _ t k. (
          record {
            link = k.link;
            object = subst (IsReader config) (sym k.object) h.object;
            thread = k.thread;
          },
          k.object,
        ))

  module _ (config : ImuReaderConfig) where
    -- Whatever the board answers, `initialize` returns; it throws only where the configuration says that
    -- the thread is to start and the system makes none, and then no thread runs; after `true` the
    -- thread runs if the configuration says so.
    pub initialize-Starts :
        (d : Device os (ImuReader F))
        → IsSound P (IsReader config) d
        → Returns (initialize d) (λ r t.
          IsSound P (IsReader config) t
          × ((r ≡ returned false) ⊎ Starts config.auto_start_thread r t))
    unfolding initialize
    initialize-Starts d h =
        Returns->>= Imu.read_imu _ (λ _ t. IsSound P (IsReader config) t) _ d
          (read_imu-IsSound (IsReader config) d h)
          (λ value t k.
            Returns-on_option (pure (returned false)) _ value (λ _. Unit {0}) _ t tt
              (λ _. (k, inl refl))
              (λ raw _.
                let u : Device os (ImuReader F) = record t {
                  object = record t.object {
                    cached_data = apply_calibration_unsafe t.object.calibration raw;
                  };
                } in
                Returns-mono (finish_initialize t.object.config.auto_start_thread u) _ _
                  (finish_initialize-IsSound (IsReader config) stable
                    t.object.config.auto_start_thread u
                    (record {
                      link = k.link;
                      thread = k.thread;
                      object = record { same = k.object.same };
                    }))
                  (λ r v s.
                    (s.0, inr (subst (λ c. Starts c.auto_start_thread r v) k.object.same (s.1))))))

    -- An update returns, and where it returns `false` the reader is as it was.
    pub update_once-IsSound :
        (d : Device os (ImuReader F))
        → IsSound P (IsReader config) d
        → Returns
            (update_once d)
            (λ done t. IsSound P (IsReader config) t × (done ≡ false → t.object ≡ d.object))
    unfolding update_once
    update_once-IsSound d h =
        Returns->>= Imu.read_imu _ _ _ d (read_imu-same d config h) (λ value t k.
          Returns-on_option (pure false) _ value (λ _. Unit {0}) _ t tt (λ _. (k.0, λ _. k.1))
            (λ raw _. (
              record {
                link = k.0.link;
                thread = k.0.thread;
                object = record { same = k.0.object.same };
              },
              λ e. cc,
            )))

    -- Whatever the loads of the flag return, where they allow fewer than 2^31 rounds, the loop of the
    -- update thread makes that many. Its `int` has
    -- not overflowed, and has counted just the failed rounds behind the last one that succeeded; where
    -- none succeeded, it has counted every round and the reader is as it was.
    pub update_loop-IsSound :
        (loads : List Bool) (d : Device os (ImuReader F))
        → rounds loads < 2 ^ 31
        → IsSound P (IsReader config) d
        → Returns (update_loop loads d) (λ failures t.
          IsSound P (IsReader config) t
          × (results : List Bool) × (length results ≡ rounds loads)
          × Ran (λ (r : ImuReader F). r.config.update_interval) update_once d results t
          × (((results ≡ replicate failures false) × (t.object ≡ d.object))
              ⊎ ((front : List Bool) × (results ≡ front ++ true ∷ replicate failures false))))
    unfolding update_loop
    update_loop-IsSound loads d fits h =
        repeat_updates-IsTallied (IsReader config) stable (λ r. r.config.update_interval)
          update_once update_once-IsSound loads d fits h

    -- A calibration returns; where it returns `false` the reader is as it was, and where it returns
    -- `true` the calibration is on the reading whose calibrated data are cached.
    pub calibrate_zero_orientation-IsZeroed :
        (d : Device os (ImuReader F))
        → IsSound P (IsReader config) d
        → Returns (calibrate_zero_orientation d) (λ done t.
          IsSound P (IsReader config) t
          × (done ≡ true → IsZeroed t.object)
          × (done ≡ false → t.object ≡ d.object))
    unfolding calibrate_zero_orientation
    calibrate_zero_orientation-IsZeroed d h =
        Returns->>= Imu.read_imu _ _ _ d (read_imu-same d config h) (λ value t k.
          Returns-on_option (pure false) _ value (λ _. Unit {0}) _ t tt
            (λ _. (k.0, (λ e. cc), λ _. k.1))
            (λ raw _. (
              record {
                link = k.0.link;
                thread = k.0.thread;
                object = record { same = k.0.object.same };
              },
              (λ _. record { raw = raw; calibration = refl; cached = refl }),
              λ e. cc,
            )))
