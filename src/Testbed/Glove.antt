-- ===== src/Testbed/Glove.antt =====
-- Examples for src/glove_sdk.cpp and the loops of the update threads.
use joyson_glove_sdk.Prelude.{
  ℕ, ◌⊎◌, ◌++◌, length, replicate, ◌≡◌, refl, arith, Bool, true, false, some, List, [], ◌∷◌,
}
use joyson_glove_sdk.Prelude.State.{Returns}
use joyson_glove_sdk.Udp.Sockets.{IsValid}
use joyson_glove_sdk.Device.{Device, no_thread}
use joyson_glove_sdk.Device.Keeps.{IsSound}
use joyson_glove_sdk.Motor.{MotorController, update_once, status_update_loop}
use joyson_glove_sdk.Motor.Keeps.{IsController}
use joyson_glove_sdk.Device.Rounds.{rounds, checked_rounds, Ran}
use joyson_glove_sdk.Motor.Updates.{status_update_loop-IsTallied}
use joyson_glove_sdk.Encoder
use joyson_glove_sdk.Encoder.{EncoderReader}
use joyson_glove_sdk.Encoder.Keeps as EncoderKeeps
use joyson_glove_sdk.Imu.{ImuReader, calibrate_zero_orientation}
use joyson_glove_sdk.Imu.Keeps as ImuKeeps
use joyson_glove_sdk.Sdk
use joyson_glove_sdk.Sdk.Parts.{GloveConfig, System, glove_sdk}
use joyson_glove_sdk.Sdk.Stable.{sockets_stable}
use joyson_glove_sdk.Sdk.Lifecycle.{IsIdle, IsReady, IsThread, all_parts}
use joyson_glove_sdk.Sdk.States.{IsBuilt}
use joyson_glove_sdk.Sdk.Loop.{unified_update_loop}
use joyson_glove_sdk.Sdk.Updates.{unified_update_loop-IsBuilt}
use joyson_glove_sdk.Sdk.Initialize.{Initializes, initialize-Initializes}
use joyson_glove_sdk.Sdk.Shutdown.{shutdown-IsIdle}
use joyson_glove_sdk.Sdk.Calls.{
  ApiCall, initializing, setting_position, setting_speed, calibrating, shutting_down, perform_calls,
}
use joyson_glove_sdk.Sdk.Phases.{Phase, idle, Runs, IsIn}
use joyson_glove_sdk.Sdk.Histories.{perform_calls-Runs}
use joyson_glove_sdk.Testbed.{test_os, test_laws, whole_numbers}
use joyson_glove_sdk.Testbed.Runs.{
  first_world, test_link, test_link-IsValid, test_motors, test_motor_config,
}
use joyson_glove_sdk.Testbed.Parts.{
  IsQuiet, IsQuiet-stable, quiet_motors, test_encoder, test_encoder-IsSound, test_orientation,
  test_offsets,
}

abbrev test_glove_config : GloveConfig
test_glove_config = record {
  server_ip = "192.168.10.123";
  server_port = 8080;
  local_port = 8080;
  send_timeout = 100;
  receive_timeout = 100;
  auto_start_thread = true;
  update_interval = 100;
}

abbrev new_system : System test_os ℕ
new_system = record { sdk = glove_sdk test_glove_config; world = first_world }

new_system-IsIdle : IsIdle ⦃fl = whole_numbers⦄ test_laws (test_laws.opened first_world) new_system
unfolding glove_sdk
new_system-IsIdle = record {
  initialized = refl;
  thread = refl;
  client = refl;
  motor = refl;
  encoder = refl;
  imu = refl;
  opened = λ m. refl;
}

initialize-Initializes_example :
    Returns
      (Sdk.initialize ⦃fl = whole_numbers⦄ new_system)
      (Initializes ⦃fl = whole_numbers⦄ test_laws (test_laws.opened first_world))
initialize-Initializes_example =
    initialize-Initializes ⦃fl = whole_numbers⦄ test_laws (test_laws.opened first_world) new_system
      new_system-IsIdle

abbrev test_imu : Device test_os (ImuReader ℕ)
test_imu = record {
  object = record {
    config = record { auto_start_thread = false; update_interval = 100 };
    cached_data = test_orientation;
    calibration = test_offsets;
  };
  thread = no_thread;
  link = test_link;
}

calibrate_zero_orientation-IsZeroed_example :
    Returns
      (calibrate_zero_orientation ⦃fl = whole_numbers⦄ test_imu)
      (λ done (t : Device test_os (ImuReader ℕ)).
        IsSound (IsValid test_laws (λ _. false)) (ImuKeeps.IsReader test_imu.object.config) t
        × (done ≡ true → ImuKeeps.IsZeroed ⦃fl = whole_numbers⦄ t.object)
        × (done ≡ false → t.object ≡ test_imu.object))
calibrate_zero_orientation-IsZeroed_example =
    ImuKeeps.calibrate_zero_orientation-IsZeroed ⦃fl = whole_numbers⦄
      (sockets_stable test_laws (λ _. false)) test_imu.object.config test_imu
      (record { link = test_link-IsValid; object = record { same = refl }; thread = refl })

abbrev ready_system : System test_os ℕ
ready_system = record {
  sdk = record (glove_sdk test_glove_config) {
    initialized = true;
    thread = record { running = true; joinable = true };
    udp_client = some test_link.client;
    motor_controller = some (record {
      object = record {
        config = record { auto_start_thread = false; update_interval = 100 };
        cached_status = test_motors.object.cached_status;
      };
      thread = no_thread;
    });
    encoder_reader = some (record { object = test_encoder.object; thread = no_thread });
    imu_reader = some (record { object = test_imu.object; thread = no_thread });
  };
  world = test_link.world;
}

ready_system-IsReady : IsReady ⦃fl = whole_numbers⦄ test_laws (λ _. false) ready_system
unfolding glove_sdk
ready_system-IsReady = record {
  initialized = refl;
  thread = λ e. refl;
  client = test_link-IsValid;
  motor = record { object = record { same = refl; slots = refl }; thread = refl };
  encoder = record { object = test_encoder-IsSound.object; thread = refl };
  imu = record { object = record { same = refl }; thread = refl };
}

shutdown-IsIdle_example :
    Returns
      (Sdk.shutdown ⦃fl = whole_numbers⦄ ready_system)
      (λ _ t. IsIdle ⦃fl = whole_numbers⦄ test_laws (λ _. false) t)
shutdown-IsIdle_example =
    shutdown-IsIdle ⦃fl = whole_numbers⦄ test_laws (λ _. false) ready_system ready_system-IsReady

abbrev test_calls : List ApiCall
test_calls =
    initializing
    ∷ setting_position 3 1000
    ∷ setting_speed 2 100 500
    ∷ calibrating
    ∷ shutting_down
    ∷ []

perform_calls-Runs_example :
    Returns
      (perform_calls ⦃fl = whole_numbers⦄ test_calls
        (record { sdk = glove_sdk {F = ℕ} test_glove_config; world = first_world }))
      (λ _ (s : System test_os ℕ).
        (p : Phase) × Runs test_calls idle p
        × IsIn ⦃fl = whole_numbers⦄ test_laws (test_laws.opened first_world) p s)
perform_calls-Runs_example =
    perform_calls-Runs ℕ ⦃fl = whole_numbers⦄ test_laws test_glove_config first_world test_calls
      (tt, (tt, (omega arith, (tt, (tt, tt)))))

abbrev test_loads : List Bool
test_loads = true ∷ true ∷ true ∷ true ∷ true ∷ false ∷ []

status_update_loop-IsTallied_example :
    Returns
      (status_update_loop test_loads quiet_motors)
      (λ failures (t : Device test_os MotorController).
        IsSound IsQuiet (IsController test_motor_config) t
        × (results : List Bool) × (length results ≡ checked_rounds test_loads)
        × Ran (λ (c : MotorController). c.config.update_interval) update_once quiet_motors results t
        × (((results ≡ replicate failures false) × (t.object ≡ quiet_motors.object))
            ⊎ ((front : List Bool) × (results ≡ front ++ true ∷ replicate failures false))))
status_update_loop-IsTallied_example =
    status_update_loop-IsTallied IsQuiet-stable test_motor_config (λ p whole. whole) test_loads
      quiet_motors (omega arith)
      (record { link = refl; object = record { same = refl; slots = refl }; thread = refl })

abbrev quiet_encoder : Device test_os (EncoderReader ℕ)
quiet_encoder = record test_encoder { link = quiet_motors.link }

update_loop-IsTallied_example :
    Returns
      (Encoder.update_loop ⦃fl = whole_numbers⦄ test_loads quiet_encoder)
      (λ failures (t : Device test_os (EncoderReader ℕ)).
        IsSound IsQuiet (EncoderKeeps.IsReader test_encoder.object.config) t
        × (results : List Bool) × (length results ≡ rounds test_loads)
        × Ran
            (λ (r : EncoderReader ℕ). r.config.update_interval)
            (Encoder.update_once ⦃fl = whole_numbers⦄)
            quiet_encoder
            results
            t
        × (((results ≡ replicate failures false) × (t.object ≡ quiet_encoder.object))
            ⊎ ((front : List Bool) × (results ≡ front ++ true ∷ replicate failures false))))
update_loop-IsTallied_example =
    EncoderKeeps.update_loop-IsTallied ⦃fl = whole_numbers⦄ IsQuiet-stable
      test_encoder.object.config test_loads quiet_encoder (omega arith)
      (record { link = refl; object = test_encoder-IsSound.object; thread = refl })

abbrev quiet_system : System test_os ℕ
quiet_system = record ready_system { world = record first_world { in_use = true; inbox = [] } }

unified_update_loop-IsBuilt_example :
    Returns
      (unified_update_loop ⦃fl = whole_numbers⦄ test_loads quiet_system)
      (λ _ t. IsBuilt IsQuiet true IsThread (all_parts ℕ) t)
unfolding glove_sdk
unified_update_loop-IsBuilt_example =
    unified_update_loop-IsBuilt ⦃fl = whole_numbers⦄ IsQuiet-stable (λ p whole. whole) IsThread
      test_loads quiet_system
      (record {
        initialized = refl;
        thread = λ e. refl;
        client = refl;
        motor = record { object = record { same = refl; slots = refl }; thread = refl };
        encoder = record { object = test_encoder-IsSound.object; thread = refl };
        imu = record { object = record { same = refl }; thread = refl };
      })
