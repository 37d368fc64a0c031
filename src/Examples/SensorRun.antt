-- ===== src/Examples/SensorRun.antt =====
-- How examples/read_sensors.cpp ends.
use joyson_glove_sdk.Prelude.{
  ℕ, zero, suc, ◌+◌, ◌*◌, ◌^◌, ◌≡◌, arith, Bool, true, ltb, List, length, replicate, if◌then◌else◌,
}
use joyson_glove_sdk.Prelude.Float.{Float}
use joyson_glove_sdk.Prelude.Monad.{Yields-mono}
use joyson_glove_sdk.Prelude.State.{
  pure, lift, ◌>>=◌, Returns, Returns->>=, Returns-if, Returns-mono,
}
use joyson_glove_sdk.Udp.Os.{Os}
use joyson_glove_sdk.Udp.Sockets.{SocketLaws}
use joyson_glove_sdk.Device.{milliseconds_since}
use joyson_glove_sdk.Motor
use joyson_glove_sdk.Protocol.Parse.{MotorStatus}
use joyson_glove_sdk.Protocol.Parse.Encoder.{IsReading}
use joyson_glove_sdk.Encoder
use joyson_glove_sdk.Encoder.Calibration.{adc_to_voltages}
use joyson_glove_sdk.Encoder.Conversion.{adc_to_voltages-Yields}
use joyson_glove_sdk.Imu
use joyson_glove_sdk.Sdk
use joyson_glove_sdk.Sdk.{forward, ensure_initialized}
use joyson_glove_sdk.Sdk.Loop.{unified_update_loop}
use joyson_glove_sdk.Sdk.Parts.{System, on_world, on_motor, on_encoder, on_imu}
use joyson_glove_sdk.Sdk.Lifecycle.{IsIdle, IsReady, IsThread}
use joyson_glove_sdk.Sdk.Updates.{unified_update_loop-IsBuilt}
use joyson_glove_sdk.Sdk.CallKeeps.{KeepsReady}
use joyson_glove_sdk.Sdk.Forwarded.{calibrate_all-KeepsReady}
use joyson_glove_sdk.Examples.{sleep}
use joyson_glove_sdk.Examples.ReadSensors.{
  read_sensors_config, left_of_100, read_elements, pause, read_once, read_repeatedly, read_details,
  read_status, read_sensors, read_sensors_main,
}
use joyson_glove_sdk.Examples.Steps.{
  Ends, Exits, then-Ends, initialize-Ends, shutdown-Ends, sleep-KeepsWhole, steady_now-KeepsWhole,
  statistics-KeepsWhole, seq-KeepsWhole, if-KeepsWhole, then-KeepsWhole, lift-Gives, run_main-Exits,
}
use joyson_glove_sdk.Sdk.Uncut.{NeverCuts, never_stable}
use joyson_glove_sdk.Examples.Reads.{
  IsFull, read_elements-Yields, shown-KeepsReady, get_encoder_angles-Gives,
  get_imu_orientation-KeepsReady, get_cached_data-Gives, all_status-Gives, encoder_age-KeepsReady,
  imu_age-KeepsReady, status_age-KeepsReady,
}

module _ {os : Os} (F : Type 0) ⦃fl : Float F⦄ (laws : SocketLaws os) (never : NeverCuts os)
    (others : ℕ → Bool) where
  pause-KeepsReady :
      (nanoseconds rounds : ℕ) → KeepsReady {F = F} laws others (pause nanoseconds rounds)
  unfolding pause
  pause-KeepsReady nanoseconds rounds =
      seq-KeepsWhole F laws others (sleep nanoseconds) _
        (sleep-KeepsWhole F laws others nanoseconds)
        (λ _ T s h.
          Returns-if s.sdk.thread.running (unified_update_loop (replicate (3 * rounds) true))
            (pure tt) _ s
            (λ _.
              unified_update_loop-IsBuilt (never_stable never laws others) (λ p n. n) T
                (replicate (3 * rounds) true) s h)
            (λ _. h))

  read_once-KeepsReady : (rounds : ℕ) → KeepsReady {F = F} laws others (read_once rounds)
  unfolding read_once
  read_once-KeepsReady rounds =
      seq-KeepsWhole F laws others (on_world os.steady_now) _ (steady_now-KeepsWhole F laws others)
        (λ start_time.
          then-KeepsWhole F laws others Sdk.get_encoder_angles (IsFull F laws others) _
            (get_encoder_angles-Gives F laws others)
            (λ angles full.
              seq-KeepsWhole F laws others Sdk.get_imu_orientation _
                (get_imu_orientation-KeepsReady F laws others)
                (λ _.
                  shown-KeepsReady F laws others angles 0 4 _ (omega (arith, full))
                    (rest_of_round start_time))))
    where
      rest_of_round :
          (start_time : ℕ)
          → KeepsReady {F = F} laws others (do
            now ← on_world os.steady_now
            let sleep_time = left_of_100 (milliseconds_since now start_time)
            if ltb 0 sleep_time then pause (sleep_time * 10 ^ 6) rounds else pure tt)
      rest_of_round start_time =
          seq-KeepsWhole F laws others (on_world os.steady_now)
            (λ now.
              let sleep_time = left_of_100 (milliseconds_since now start_time) in
              if ltb 0 sleep_time then pause (sleep_time * 10 ^ 6) rounds else pure tt)
            (steady_now-KeepsWhole F laws others)
            (λ now.
              let sleep_time : ℕ = left_of_100 (milliseconds_since now start_time) in
              if-KeepsWhole F laws others (ltb 0 sleep_time) (pause (sleep_time * 10 ^ 6) rounds)
                (pure tt) (pause-KeepsReady (sleep_time * 10 ^ 6) rounds) (λ T s h. h))

  read_repeatedly-KeepsReady :
      (pauses : ℕ → ℕ) (i rounds_left : ℕ)
      → KeepsReady {F = F} laws others (read_repeatedly pauses i rounds_left)
  unfolding read_repeatedly
  read_repeatedly-KeepsReady pauses i zero = λ T s h. h
  read_repeatedly-KeepsReady pauses i (suc rounds_left) =
      seq-KeepsWhole F laws others (read_once (pauses (i + 1))) _
        (read_once-KeepsReady (pauses (i + 1)))
        (λ _. read_repeatedly-KeepsReady pauses (i + 1) rounds_left)

  read_details-KeepsReady : KeepsReady {F = F} laws others read_details
  unfolding read_details
  read_details-KeepsReady =
      then-KeepsWhole F laws others (on_encoder Encoder.get_cached_data) IsReading _
        (get_cached_data-Gives F laws others)
        (λ data_read reading.
          then-KeepsWhole F laws others (lift (adc_to_voltages data_read.adc_values))
            (IsFull F laws others) _
            (lift-Gives F laws others (adc_to_voltages data_read.adc_values) (IsFull F laws others)
              (Yields-mono (adc_to_voltages data_read.adc_values) _ _
                (adc_to_voltages-Yields F data_read.adc_values reading.channels reading.typed)
                (λ vs k. k.0)))
            (λ voltages all_voltages.
              then-KeepsWhole F laws others Sdk.get_encoder_angles (IsFull F laws others) _
                (get_encoder_angles-Gives F laws others)
                (λ angles full.
                  shown-KeepsReady F laws others data_read.adc_values 0 16 _
                    (omega (arith, reading.channels))
                    (shown-KeepsReady F laws others voltages 0 16 _ (omega (arith, all_voltages)) (
                      shown-KeepsReady F laws others angles 0 16 _ (omega (arith, full))
                        (λ T s h. h))))))

  read_status-Ends :
      (s : System os F) → IsReady laws others s → Returns (read_status s) (Ends F laws others)
  unfolding read_status
  read_status-Ends s h =
      Returns->>= (on_motor Motor.get_all_cached_status) _
        (λ statuses t. IsReady laws others t × (length statuses ≡ 6)) _ s
        (all_status-Gives F laws others IsThread s h)
        (λ statuses s h.
          then-Ends F laws others (lift (read_elements statuses 0 6)) _ s
            (shown_status statuses (h.1)) (h.0)
            (λ _ s h.
              then-Ends F laws others (on_encoder Encoder.get_data_age) _ s
                (encoder_age-KeepsReady F laws others) h
                (λ _ s h.
                  then-Ends F laws others (on_imu Imu.get_data_age) _ s
                    (imu_age-KeepsReady F laws others) h
                    (λ _ s h.
                      then-Ends F laws others (on_motor (Motor.get_status_age 1)) _ s
                        (status_age-KeepsReady F laws others) h
                        (λ _ s h.
                          then-Ends F laws others Sdk.get_network_statistics _ s
                            (statistics-KeepsWhole F laws others) h
                            (λ _ s h. shutdown-Ends F laws others s h))))))
    where
      shown_status :
          (statuses : List MotorStatus)
          → length statuses ≡ 6
          → KeepsReady {F = F} laws others (lift (read_elements statuses 0 6))
      shown_status statuses all T s h =
          Returns-mono (lift (read_elements statuses 0 6) s) _ _
            (lift-Gives F laws others (read_elements statuses 0 6) (λ _. Unit {0})
              (read_elements-Yields statuses 0 6 (omega (arith, all))) T s h)
            (λ _ t k. k.0)

  read_sensors-Ends :
      (pauses : ℕ → ℕ) (s : System os F)
      → IsIdle laws others s
      → Returns (read_sensors pauses s) (Ends F laws others)
  unfolding read_sensors
  read_sensors-Ends pauses s h = initialize-Ends F laws others _ s h (λ s h.
      then-Ends F laws others (pause (500 * 10 ^ 6) (pauses 0)) _ s
        (pause-KeepsReady (500 * 10 ^ 6) (pauses 0)) h
        (λ _ s h.
          then-Ends F laws others Sdk.calibrate_all _ s (calibrate_all-KeepsReady F laws others) h
            (λ _ s h.
              then-Ends F laws others (read_repeatedly pauses 0 100) _ s
                (read_repeatedly-KeepsReady pauses 0 100) h
                (λ _ s h.
                  then-Ends F laws others read_details _ s read_details-KeepsReady h
                    (λ _ s h. read_status-Ends s h)))))

module _ {os : Os} (F : Type 0) ⦃fl : Float F⦄ (laws : SocketLaws os) (never : NeverCuts os) where
  -- Where the system keeps its descriptors as `SocketLaws` say and the board sends no motor response
  -- with a body of 18 bytes, read_sensors ends in any world, whatever else the board answers and
  -- however many rounds the update thread makes in each sleep: no null pointer is followed and no read
  -- leaves its array. Its exit code is 0 or 1, and then just those descriptors are open that were open
  -- before it; or an exception that is not caught ends it, with the SDK whole.
  pub read_sensors_main-Exits :
      (pauses : ℕ → ℕ) (w : os.World)
      → Returns (read_sensors_main {F = F} pauses w) (Exits F laws (laws.opened w))
  unfolding read_sensors_main
  read_sensors_main-Exits pauses w =
      run_main-Exits F laws read_sensors_config (read_sensors pauses) w
        (read_sensors-Ends F laws never (laws.opened w) pauses)
