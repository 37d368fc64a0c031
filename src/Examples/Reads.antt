-- ===== src/Examples/Reads.antt =====
-- What examples/read_sensors.cpp reads of a whole SDK is there.
use joyson_glove_sdk.Prelude.{
  ℕ, ◌+◌, ◌≤◌, ◌≡◌, refl, sym, subst, arith, Bool, true, not, List, length, replicate, get_elem?,
}
use joyson_glove_sdk.Prelude.Float.{Float}
use joyson_glove_sdk.Prelude.Monad.{
  in_bounds, in_bounds-get_elem?, Yields, Yields-mono, Total-Yields,
}
use joyson_glove_sdk.Prelude.State.{
  State, pure, lift, ◌>>◌, Returns->>=, Returns-if, Returns-mono, Returns-lift,
}
use joyson_glove_sdk.Udp.Os.{Os}
use joyson_glove_sdk.Udp.Sockets.{SocketLaws, IsValid}
use joyson_glove_sdk.Device.{Device}
use joyson_glove_sdk.Device.Keeps.{IsSound}
use joyson_glove_sdk.Motor
use joyson_glove_sdk.Motor.Keeps as MotorKeeps
use joyson_glove_sdk.Protocol.Parse.Encoder.{IsReading}
use joyson_glove_sdk.Encoder
use joyson_glove_sdk.Encoder.Keeps as EncoderKeeps
use joyson_glove_sdk.Encoder.Calibration.{element, fill}
use joyson_glove_sdk.Encoder.Conversion.{fill-Yields, element-Yields, All-any}
use joyson_glove_sdk.Imu
use joyson_glove_sdk.Sdk
use joyson_glove_sdk.Sdk.{forward, ensure_initialized}
use joyson_glove_sdk.Sdk.Parts.{System, on_motor, on_encoder, on_imu}
use joyson_glove_sdk.Sdk.Stable.{sockets_stable}
use joyson_glove_sdk.Sdk.States.{motor_config, encoder_config, on_motor-IsBuilt, on_encoder-IsBuilt}
use joyson_glove_sdk.Sdk.Lifecycle.{all_parts}
use joyson_glove_sdk.Sdk.CallKeeps.{
  KeepsReady, motor-KeepsReady, encoder-KeepsReady, imu-KeepsReady,
}
use joyson_glove_sdk.Sdk.Forwarded.{forwarded-KeepsReady, get_cached_data-KeepsReady}
use joyson_glove_sdk.Examples.ReadSensors.{read_elements}
use joyson_glove_sdk.Examples.Steps.{Gives, then-KeepsWhole, lift-Gives}

-- What is read is in the array.
pub read_elements-Yields :
    {A : Type 0} (xs : List A) (i rounds : ℕ)
    → i + rounds ≤ length xs
    → Yields (read_elements xs i rounds) (λ _. Unit {0})
unfolding read_elements
read_elements-Yields xs i rounds fits =
    Yields-mono (fill (element xs) i rounds) _ _
      (fill-Yields (element xs) (λ _. Unit {0}) i rounds
        (λ j b.
          Yields-mono (element xs j) _ _
            (element-Yields xs (λ _. Unit {0}) j (All-any xs) (omega arith)) (λ _ _. tt)))
      (λ _ _. tt)

module _ {os : Os} (F : Type 0) ⦃fl : Float F⦄ (laws : SocketLaws os) (others : ℕ → Bool) where
  pub shown-KeepsReady :
      {A B : Type 0} (xs : List A) (i rounds : ℕ) (rest : State (System os F) B)
      → i + rounds ≤ length xs
      → KeepsReady laws others rest
      → KeepsReady laws others (do lift (read_elements xs i rounds); rest)
  shown-KeepsReady xs i rounds rest fits k =
      then-KeepsWhole F laws others (lift (read_elements xs i rounds)) (λ _. Unit {0}) (λ _. rest)
        (lift-Gives F laws others (read_elements xs i rounds) (λ _. Unit {0})
          (read_elements-Yields xs i rounds fits))
        (λ _ _. k)

  -- The angles are those of all channels.
  abbrev pub IsFull : List F → Type 0
  IsFull angles = length angles ≡ 16

  pub get_encoder_angles-Gives : Gives F laws others IsFull Sdk.get_encoder_angles
  unfolding Sdk.get_encoder_angles forward ensure_initialized
  get_encoder_angles-Gives T s h =
      Returns-if (not s.sdk.initialized) (pure (replicate 16 (fl.of_ℕ 0)))
        (on_encoder Encoder.get_cached_angles) _ s (λ _. (h, refl))
        (λ _.
          on_encoder-IsBuilt (IsValid laws others) true T (all_parts F) Encoder.get_cached_angles
            IsFull s h
            (λ d sound.
              Returns-mono (Encoder.get_cached_angles d) _ _
                (EncoderKeeps.get_cached_angles-IsSound (sockets_stable laws others) encoder_config
                  d sound)
                (λ angles t r. (
                  subst (IsSound (IsValid laws others) (EncoderKeeps.IsReader encoder_config))
                      (sym (r.0)) sound,
                  r.1,
                ))))

  pub get_imu_orientation-KeepsReady : KeepsReady {F = F} laws others Sdk.get_imu_orientation
  unfolding Sdk.get_imu_orientation
  get_imu_orientation-KeepsReady =
      forwarded-KeepsReady F laws others _ (on_imu Imu.get_cached_data)
        (get_cached_data-KeepsReady F laws others)

  pub get_cached_data-Gives : Gives F laws others IsReading (on_encoder Encoder.get_cached_data)
  unfolding Encoder.get_cached_data
  get_cached_data-Gives T s h =
      on_encoder-IsBuilt (IsValid laws others) true T (all_parts F) Encoder.get_cached_data
        IsReading s h (λ d sound. (sound, sound.object.cached))

  pub all_status-Gives :
      Gives F laws others (λ statuses. length statuses ≡ 6) (on_motor Motor.get_all_cached_status)
  unfolding Motor.get_all_cached_status
  all_status-Gives T s h =
      on_motor-IsBuilt (IsValid laws others) true T (all_parts F) Motor.get_all_cached_status
        (λ statuses. length statuses ≡ 6) s h (λ d sound. (sound, sound.object.slots))

  pub encoder_age-KeepsReady : KeepsReady {F = F} laws others (on_encoder Encoder.get_data_age)
  unfolding Encoder.get_data_age
  encoder_age-KeepsReady = encoder-KeepsReady laws others Encoder.get_data_age (λ d h. record {
    link = (sockets_stable laws others).tick d.link h.link;
    object = h.object;
    thread = h.thread;
  })

  pub imu_age-KeepsReady : KeepsReady {F = F} laws others (on_imu Imu.get_data_age)
  unfolding Imu.get_data_age
  imu_age-KeepsReady = imu-KeepsReady laws others Imu.get_data_age (λ d h. record {
    link = (sockets_stable laws others).tick d.link h.link;
    object = h.object;
    thread = h.thread;
  })

  pub status_age-KeepsReady : KeepsReady {F = F} laws others (on_motor (Motor.get_status_age 1))
  unfolding Motor.get_status_age Motor.cached Motor.is_valid_motor_id
  status_age-KeepsReady = motor-KeepsReady laws others (Motor.get_status_age 1) (λ d h.
      let ticked : Device os Motor.MotorController = record d {
        link = record d.link { world = (os.steady_now d.link.world).1 };
      } in
      let sound : IsSound (IsValid laws others) (MotorKeeps.IsController motor_config) ticked =
        record {
          link = (sockets_stable laws others).tick d.link h.link;
          object = h.object;
          thread = h.thread;
        } in
      Returns->>= (Motor.cached 1) _
        (λ _ t. IsSound (IsValid laws others) (MotorKeeps.IsController motor_config) t) _ ticked
        (Returns-lift (in_bounds (get_elem? d.object.cached_status 0)) _ _ ticked
          (Total-Yields _
            (in_bounds-get_elem? d.object.cached_status 0 (omega (arith, h.object.slots))))
          (λ _ _. sound))
        (λ _ t k. k))
