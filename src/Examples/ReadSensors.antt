-- ===== src/Examples/ReadSensors.antt =====
-- `main` of examples/read_sensors.cpp. Its SDK updates its parts in a thread; `pauses` says how many
-- rounds of the thread's loop are made in each sleep of `main`, where the thread has its turn.
use joyson_glove_sdk.Prelude.{
  ℕ, zero, suc, ◌+◌, ◌-◌, ◌*◌, ◌^◌, true, List, replicate, ltb, if◌then◌else◌,
}
use joyson_glove_sdk.Prelude.Float.{Float}
use joyson_glove_sdk.Prelude.Int.{ℤ, pos, negsuc}
use joyson_glove_sdk.Prelude.Monad.{Checked}
use joyson_glove_sdk.Prelude.State.{State, pure, ◌>>=◌, ◌>>◌, gets, lift}
use joyson_glove_sdk.Protocol.Constants.{num_motors, num_encoder_channels}
use joyson_glove_sdk.Udp.Os.{Os}
use joyson_glove_sdk.Device.{Outcome, returned, milliseconds_since}
use joyson_glove_sdk.Motor
use joyson_glove_sdk.Encoder
use joyson_glove_sdk.Encoder.Calibration.{element, fill, adc_to_voltages}
use joyson_glove_sdk.Imu
use joyson_glove_sdk.Sdk
use joyson_glove_sdk.Sdk.Loop.{unified_update_loop}
use joyson_glove_sdk.Sdk.Parts.{
  GloveConfig, default_config, System, on_world, on_motor, on_encoder, on_imu,
}
use joyson_glove_sdk.Examples.{or_exit, sleep, run_main}

unfoldable pub read_sensors_config : GloveConfig
read_sensors_config = record default_config {
  send_timeout = 500;
  receive_timeout = 500;
  auto_start_thread = true;
}

-- What is left of `milliseconds(100)` when so many are over, if it is more than 0.
unfoldable pub left_of_100 : ℤ → ℕ
left_of_100 (pos n) = 100 - n
left_of_100 (negsuc n) = 100 + (n + 1)

-- The elements of an array that are read to be shown: `rounds` of them from index `i` on.
unfoldable pub read_elements : {A : Type 0} → List A → ℕ → ℕ → Checked (List A)
read_elements xs i rounds = fill (element xs) i rounds

module _ {os : Os} {F : Type 0} ⦃fl : Float F⦄ where
  -- A sleep, in which the update thread makes so many rounds, if it runs.
  unfoldable pub pause : ℕ → ℕ → State (System os F) (Unit {0})
  pause nanoseconds rounds = do
    sleep nanoseconds
    t ← gets (λ s. s.sdk.thread)
    if t.running then unified_update_loop (replicate (3 * rounds) true) else pure tt

  -- The body of the loop of step 4.
  unfoldable pub read_once : ℕ → State (System os F) (Unit {0})
  read_once rounds = do
    start_time ← on_world os.steady_now
    encoder_angles ← Sdk.get_encoder_angles
    Sdk.get_imu_orientation
    lift (read_elements encoder_angles 0 4)
    now ← on_world os.steady_now
    let sleep_time = left_of_100 (milliseconds_since now start_time)
    if ltb 0 sleep_time then pause (sleep_time * 10 ^ 6) rounds else pure tt

  -- The loop of step 4: `rounds_left` more rounds from round `i` on.
  unfoldable pub read_repeatedly : (ℕ → ℕ) → ℕ → ℕ → State (System os F) (Unit {0})
  read_repeatedly pauses i zero = pure tt
  read_repeatedly pauses i (suc rounds_left) = do
    read_once (pauses (i + 1))
    read_repeatedly pauses (i + 1) rounds_left

  -- Step 5.
  unfoldable pub read_details : State (System os F) (Unit {0})
  read_details = do
    encoder_data ← on_encoder Encoder.get_cached_data
    voltages ← lift (adc_to_voltages {F = F} encoder_data.adc_values)
    encoder_angles ← Sdk.get_encoder_angles
    lift (read_elements encoder_data.adc_values 0 num_encoder_channels)
    lift (read_elements voltages 0 num_encoder_channels)
    lift (read_elements encoder_angles 0 num_encoder_channels)
    pure tt

  -- Steps 6 to 9 and the end.
  unfoldable pub read_status : State (System os F) (Outcome ℕ)
  read_status = do
    motor_status ← on_motor Motor.get_all_cached_status
    lift (read_elements motor_status 0 num_motors)
    on_encoder Encoder.get_data_age
    on_imu Imu.get_data_age
    on_motor (Motor.get_status_age 1)
    Sdk.get_network_statistics
    Sdk.shutdown
    pure (returned 0)

  -- `main` between the constructor and the destructor of its SDK; a key ends the wait for step 3.
  unfoldable pub read_sensors : (ℕ → ℕ) → State (System os F) (Outcome ℕ)
  read_sensors pauses = do
    ready ← Sdk.initialize
    or_exit
        (do
          pause (500 * 10 ^ 6) (pauses 0)
          Sdk.calibrate_all
          read_repeatedly pauses 0 100
          read_details
          read_status)
        ready

  unfoldable pub read_sensors_main : (ℕ → ℕ) → os.World → Checked (Outcome ℕ × System os F)
  read_sensors_main pauses = run_main read_sensors_config (read_sensors pauses)
