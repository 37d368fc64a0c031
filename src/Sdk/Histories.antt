-- ===== src/Sdk/Histories.antt =====
-- Histories of calls on a `GloveSDK`, src/glove_sdk.cpp, from the constructor on.
use joyson_glove_sdk.Prelude.{ℕ, refl, Bool, All, List, [], ◌∷◌}
use joyson_glove_sdk.Prelude.Float.{Float}
use joyson_glove_sdk.Prelude.State.{Returns, Returns->>=, Returns-mono}
use joyson_glove_sdk.Udp.Os.{Os}
use joyson_glove_sdk.Udp.Sockets.{SocketLaws}
use joyson_glove_sdk.Motor.Keeps as MotorKeeps
use joyson_glove_sdk.Encoder
use joyson_glove_sdk.Imu
use joyson_glove_sdk.Sdk
use joyson_glove_sdk.Sdk.{forward, ensure_initialized}
use joyson_glove_sdk.Sdk.Parts.{GloveConfig, glove_sdk, on_encoder, on_imu}
use joyson_glove_sdk.Sdk.Stable.{sockets_stable}
use joyson_glove_sdk.Sdk.States.{motor_config}
use joyson_glove_sdk.Sdk.Lifecycle.{IsIdle}
use joyson_glove_sdk.Sdk.Calls.{
  ApiCall, initializing, shutting_down, starting, stopping, setting_mode, setting_position,
  setting_force, setting_speed, setting_all_modes, setting_all_positions, setting_all_forces,
  reading_angles, reading_orientation, reading_statistics, resetting_statistics, calibrating,
  calibrating_encoders, calibrating_imu, IsTyped, perform, perform_calls,
}
use joyson_glove_sdk.Sdk.Phases.{Phase, Stays, idle, Next, Runs, IsIn}
use joyson_glove_sdk.Sdk.Refinement.{
  Simulates, forward-Simulates, dropping-Simulates, initialize-Simulates, shutdown-Idles,
}
use joyson_glove_sdk.Sdk.Refinement.Threads.{start-Simulates, stop-Simulates}
use joyson_glove_sdk.Sdk.Forwarded.{
  get_cached_angles-KeepsReady, get_cached_data-KeepsReady, calibrate_encoders-Simulates,
  calibrate_imu-Simulates, calibrate_all-Simulates, get_network_statistics-Simulates,
  reset_network_statistics-Simulates, motor-Simulates,
}

module _ {os : Os} (F : Type 0) ⦃fl : Float F⦄ (laws : SocketLaws os) (others : ℕ → Bool) where
  pub perform-Simulates :
      (call : ApiCall) → IsTyped call → Simulates F laws others (Next call) (perform call)
  unfolding perform Sdk.set_motor_mode Sdk.set_motor_position Sdk.set_motor_force
      Sdk.set_motor_speed Sdk.set_all_modes Sdk.set_all_positions Sdk.set_all_forces
      Sdk.get_encoder_angles Sdk.get_imu_orientation
  perform-Simulates initializing t =
      dropping-Simulates F laws others (Next initializing) Sdk.initialize
        (initialize-Simulates F laws others)
  perform-Simulates shutting_down t = λ p s h.
      Returns-mono (Sdk.shutdown s) _ _ (shutdown-Idles F laws others p s h)
        (λ _ t k. (idle, refl, k))
  perform-Simulates starting t =
      dropping-Simulates F laws others (Next starting) Sdk.start (start-Simulates F laws others)
  perform-Simulates stopping t = stop-Simulates F laws others
  perform-Simulates (setting_mode id m) t =
      motor-Simulates F laws others _
        (MotorKeeps.set_motor_mode-Keeps (sockets_stable laws others) motor_config id m)
  perform-Simulates (setting_position id p) t =
      motor-Simulates F laws others _
        (MotorKeeps.set_motor_position-Keeps (sockets_stable laws others) motor_config id p)
  perform-Simulates (setting_force id f) t =
      motor-Simulates F laws others _
        (MotorKeeps.set_motor_force-Keeps (sockets_stable laws others) motor_config id f)
  perform-Simulates (setting_speed id s p) t =
      motor-Simulates F laws others _
        (MotorKeeps.set_motor_speed-Keeps (sockets_stable laws others) motor_config id s p t)
  perform-Simulates (setting_all_modes m) t =
      motor-Simulates F laws others _
        (MotorKeeps.set_all_modes-Keeps (sockets_stable laws others) motor_config m)
  perform-Simulates (setting_all_positions positions) t =
      motor-Simulates F laws others _
        (MotorKeeps.set_all_positions-Keeps (sockets_stable laws others) motor_config positions t)
  perform-Simulates (setting_all_forces forces) t =
      motor-Simulates F laws others _
        (MotorKeeps.set_all_forces-Keeps (sockets_stable laws others) motor_config forces t)
  perform-Simulates reading_angles t =
      dropping-Simulates F laws others Stays Sdk.get_encoder_angles (
        forward-Simulates F laws others _ (on_encoder Encoder.get_cached_angles)
          (get_cached_angles-KeepsReady F laws others))
  perform-Simulates reading_orientation t =
      dropping-Simulates F laws others Stays Sdk.get_imu_orientation (
        forward-Simulates F laws others _ (on_imu Imu.get_cached_data)
          (get_cached_data-KeepsReady F laws others))
  perform-Simulates reading_statistics t =
      dropping-Simulates F laws others Stays Sdk.get_network_statistics
        (get_network_statistics-Simulates F laws others)
  perform-Simulates resetting_statistics t = reset_network_statistics-Simulates F laws others
  perform-Simulates calibrating t =
      dropping-Simulates F laws others Stays Sdk.calibrate_all
        (calibrate_all-Simulates F laws others)
  perform-Simulates calibrating_encoders t =
      dropping-Simulates F laws others Stays Sdk.calibrate_encoders
        (calibrate_encoders-Simulates F laws others)
  perform-Simulates calibrating_imu t =
      dropping-Simulates F laws others Stays Sdk.calibrate_imu
        (calibrate_imu-Simulates F laws others)

  perform_calls-Simulates :
      (calls : List ApiCall)
      → All IsTyped calls
      → Simulates F laws others (Runs calls) (perform_calls calls)
  unfolding perform_calls
  perform_calls-Simulates [] typed p s h = (p, refl, h)
  perform_calls-Simulates (call ∷ calls) typed p s h =
      Returns->>= (perform call) (λ _. perform_calls calls) _ _ s
        (perform-Simulates call (typed.0) p s h)
        (λ _ t k.
          Returns-mono (perform_calls calls t) _ _
            (perform_calls-Simulates calls (typed.1) (k.0) t (k.2))
            (λ _ u m. (m.0, (k.0, k.1, m.1), m.2)))

module _ {os : Os} (F : Type 0) ⦃fl : Float F⦄ (laws : SocketLaws os) where
  pub new-IsIdle :
      (config : GloveConfig) (w : os.World)
      → IsIdle laws (laws.opened w) (record { sdk = glove_sdk {F = F} config; world = w })
  unfolding glove_sdk
  new-IsIdle config w = record {
    initialized = refl;
    thread = refl;
    client = refl;
    motor = refl;
    encoder = refl;
    imu = refl;
    opened = λ m. refl;
  }

  -- Where the system keeps its descriptors as `SocketLaws` say, a `GloveSDK` refines the machine of four
  -- phases: any sequence of calls with arguments of their types, on a new SDK of any configuration in
  -- any world, returns, and it ends in a phase to which that sequence may lead from `idle`. In `idle`
  -- no client, no part and no thread is there, and just those descriptors are open that were open before
  -- the constructor; in each other phase the client and all parts are there and sound, and the thread
  -- of the SDK is the phase's.
  pub perform_calls-Runs :
      (config : GloveConfig) (w : os.World) (calls : List ApiCall)
      → All IsTyped calls
      → Returns
          (perform_calls calls (record { sdk = glove_sdk {F = F} config; world = w }))
          (λ _ s. (p : Phase) × Runs calls idle p × IsIn laws (laws.opened w) p s)
  perform_calls-Runs config w calls typed =
      perform_calls-Simulates F laws (laws.opened w) calls typed idle _ (new-IsIdle config w)
