-- ===== src/Sdk/Forwarded.antt =====
-- The calls that a `GloveSDK`, src/glove_sdk.cpp, forwards to its client and its parts: they stay in
-- their phase.
use joyson_glove_sdk.Prelude.{ℕ, sym, ap, ◌∙◌, subst, Bool, false, not, ◌&&◌, ◌||◌, is_some}
use joyson_glove_sdk.Prelude.Float.{Float}
use joyson_glove_sdk.Prelude.State.{State, pure, Returns->>=, Returns-if, Returns-mono}
use joyson_glove_sdk.Udp.Os.{Os}
use joyson_glove_sdk.Udp.Client.{get_statistics, no_statistics, reset_statistics}
use joyson_glove_sdk.Udp.Sockets.{SocketLaws, IsValid}
use joyson_glove_sdk.Udp.Sockets.Calls.{Keeps-reset_statistics}
use joyson_glove_sdk.Device.{Device}
use joyson_glove_sdk.Device.Keeps.{IsSound}
use joyson_glove_sdk.Motor.{MotorController}
use joyson_glove_sdk.Motor.Keeps as MotorKeeps
use joyson_glove_sdk.Encoder
use joyson_glove_sdk.Encoder.Keeps as EncoderKeeps
use joyson_glove_sdk.Encoder.Calibrating as EncoderCalibrating
use joyson_glove_sdk.Imu
use joyson_glove_sdk.Imu.Keeps as ImuKeeps
use joyson_glove_sdk.Sdk
use joyson_glove_sdk.Sdk.{forward, ensure_initialized}
use joyson_glove_sdk.Sdk.Parts.{System, on_client, on_motor, on_encoder, on_imu}
use joyson_glove_sdk.Sdk.Stable.{sockets_stable}
use joyson_glove_sdk.Sdk.States.{motor_config, encoder_config, imu_config}
use joyson_glove_sdk.Sdk.Calls.{dropping}
use joyson_glove_sdk.Sdk.CallKeeps.{
  true_ne, IsReadyWith, KeepsReady, motor-KeepsReady, encoder-KeepsReady, imu-KeepsReady,
  client-KeepsReady,
}
use joyson_glove_sdk.Sdk.Phases.{Stays}
use joyson_glove_sdk.Sdk.Refinement.{Simulates, Simulates-by, forward-Simulates, dropping-Simulates}

module _ {os : Os} (F : Type 0) ⦃fl : Float F⦄ (laws : SocketLaws os) (others : ℕ → Bool) where
  pub get_cached_angles-KeepsReady :
      KeepsReady {F = F} laws others (on_encoder Encoder.get_cached_angles)
  get_cached_angles-KeepsReady = encoder-KeepsReady laws others Encoder.get_cached_angles (λ d h.
      Returns-mono (Encoder.get_cached_angles d) _ _
        (EncoderKeeps.get_cached_angles-IsSound (sockets_stable laws others) encoder_config d h)
        (λ _ t r.
          subst (IsSound (IsValid laws others) (EncoderKeeps.IsReader encoder_config)) (sym (r.0))
            h))

  pub get_cached_data-KeepsReady : KeepsReady {F = F} laws others (on_imu Imu.get_cached_data)
  unfolding Imu.get_cached_data
  get_cached_data-KeepsReady = imu-KeepsReady laws others Imu.get_cached_data (λ d h. h)

  pub calibrate_zero_point-KeepsReady :
      KeepsReady {F = F} laws others (on_encoder Encoder.calibrate_zero_point)
  calibrate_zero_point-KeepsReady =
      encoder-KeepsReady laws others Encoder.calibrate_zero_point (λ d h.
        Returns-mono (Encoder.calibrate_zero_point d) _ _
          (EncoderCalibrating.calibrate_zero_point-IsSound (sockets_stable laws others)
            encoder_config d h)
          (λ _ t r. r.0))

  pub calibrate_zero_orientation-KeepsReady :
      KeepsReady {F = F} laws others (on_imu Imu.calibrate_zero_orientation)
  calibrate_zero_orientation-KeepsReady =
      imu-KeepsReady laws others Imu.calibrate_zero_orientation (λ d h.
        Returns-mono (Imu.calibrate_zero_orientation d) _ _
          (ImuKeeps.calibrate_zero_orientation-IsZeroed (sockets_stable laws others) imu_config d h)
          (λ _ t r. r.0))

  pub calibrate_encoders-Simulates : Simulates F laws others Stays Sdk.calibrate_encoders
  unfolding Sdk.calibrate_encoders
  calibrate_encoders-Simulates =
      forward-Simulates F laws others false (on_encoder Encoder.calibrate_zero_point)
        calibrate_zero_point-KeepsReady

  pub calibrate_imu-Simulates : Simulates F laws others Stays Sdk.calibrate_imu
  unfolding Sdk.calibrate_imu
  calibrate_imu-Simulates =
      forward-Simulates F laws others false (on_imu Imu.calibrate_zero_orientation)
        calibrate_zero_orientation-KeepsReady

  -- A calibration that is forwarded, where everything is there.
  pub forwarded-KeepsReady :
      {A : Type 0} (a : A) (m : State (System os F) A)
      → KeepsReady laws others m
      → KeepsReady laws others (forward a m)
  unfolding forward ensure_initialized
  forwarded-KeepsReady a m k T s h =
      Returns-if (not s.sdk.initialized) (pure a) m _ s (λ _. h) (λ _. k T s h)

  pub calibrate_all-KeepsReady : KeepsReady {F = F} laws others Sdk.calibrate_all
  unfolding Sdk.calibrate_all Sdk.calibrate_encoders Sdk.calibrate_imu
  calibrate_all-KeepsReady = forwarded-KeepsReady false _ (λ T s h.
      Returns->>= (forward false (on_encoder Encoder.calibrate_zero_point)) _
        (λ _ t. IsReadyWith laws others T t) _ s
        (forwarded-KeepsReady false (on_encoder Encoder.calibrate_zero_point)
          calibrate_zero_point-KeepsReady T s h)
        (λ e t k.
          Returns->>= (forward false (on_imu Imu.calibrate_zero_orientation)) _
            (λ _ t. IsReadyWith laws others T t) _ t
            (forwarded-KeepsReady false (on_imu Imu.calibrate_zero_orientation)
              calibrate_zero_orientation-KeepsReady T t k)
            (λ i u r. r)))

  pub calibrate_all-Simulates : Simulates F laws others Stays Sdk.calibrate_all
  unfolding Sdk.calibrate_all forward ensure_initialized
  calibrate_all-Simulates =
      Simulates-by F laws others Sdk.calibrate_all
        (λ s h.
          Returns-if (not s.sdk.initialized) (pure false) _ _ s (λ _. h)
            (λ e. absurd (true_ne (sym (ap not h.initialized) ∙ e))))
        calibrate_all-KeepsReady

  pub get_network_statistics-Simulates : Simulates F laws others Stays Sdk.get_network_statistics
  unfolding Sdk.get_network_statistics get_statistics
  get_network_statistics-Simulates =
      Simulates-by F laws others Sdk.get_network_statistics
        (λ s h.
          Returns-if (not s.sdk.initialized || not (is_some s.sdk.udp_client)) (pure no_statistics)
            _ _ s (λ _. h)
            (λ e. absurd (
              true_ne (sym (ap (λ b. not b || not (is_some s.sdk.udp_client)) h.initialized) ∙ e))))
        (λ T s h.
          Returns-if (not s.sdk.initialized || not (is_some s.sdk.udp_client)) (pure no_statistics)
            _ _ s (λ _. h) (λ _. client-KeepsReady laws others get_statistics (λ l v. v) T s h))

  pub reset_network_statistics-Simulates :
      Simulates F laws others Stays Sdk.reset_network_statistics
  unfolding Sdk.reset_network_statistics
  reset_network_statistics-Simulates =
      Simulates-by F laws others Sdk.reset_network_statistics
        (λ s h.
          Returns-if (s.sdk.initialized && is_some s.sdk.udp_client) (on_client reset_statistics)
            (pure tt) _ s
            (λ e. absurd (true_ne (sym e ∙ ap (λ b. b && is_some s.sdk.udp_client) h.initialized)))
            (λ _. h))
        (λ T s h.
          Returns-if (s.sdk.initialized && is_some s.sdk.udp_client) (on_client reset_statistics)
            (pure tt) _ s
            (λ _.
              client-KeepsReady laws others reset_statistics (Keeps-reset_statistics laws others) T
                s h)
            (λ _. h))

  -- A setter of the motors.
  pub motor-Simulates :
      (m : State (Device os MotorController) Bool)
      → MotorKeeps.Keeps (sockets_stable laws others) motor_config m
      → Simulates F laws others Stays (dropping (forward false (on_motor m)))
  motor-Simulates m k =
      dropping-Simulates F laws others Stays (forward false (on_motor m))
        (forward-Simulates F laws others false (on_motor m) (motor-KeepsReady laws others m k))
