-- ===== src/Sdk.antt =====
-- `class GloveSDK`: include/joyson_glove/glove_sdk.hpp, src/glove_sdk.cpp.
pub mod Parts
pub mod Reach
pub mod Stable
pub mod States
pub mod Resets
pub mod Lifecycle
pub mod Creation
pub mod Start
pub mod Initialize
pub mod Shutdown
pub mod Calls
pub mod Loop
pub mod Updates
pub mod Uncut
pub mod CallKeeps
pub mod Phases
pub mod Refinement
pub mod Forwarded
pub mod Histories
pub mod Served
pub mod Turns
use joyson_glove_sdk.Prelude.{
  ℕ, Bool, true, false, not, ◌&&◌, ◌||◌, Option, none, some, is_some, List, replicate,
  if◌then◌else◌,
}
use joyson_glove_sdk.Prelude.Float.{Float}
use joyson_glove_sdk.Prelude.Monad.{out_of_bounds}
use joyson_glove_sdk.Prelude.State.{State, pure, ◌>>=◌, ◌>>◌, gets, lift}
use joyson_glove_sdk.Protocol.Constants.{num_encoder_channels}
use joyson_glove_sdk.Protocol.Parse.{ImuData}
use joyson_glove_sdk.Udp.Os.{Os}
use joyson_glove_sdk.Udp.Client.{
  UdpConfig, NetworkStatistics, no_statistics, udp_client, connect, disconnect, destroy,
  get_statistics, reset_statistics,
}
use joyson_glove_sdk.Device.{Outcome, returned, threw, start_result, no_thread}
use joyson_glove_sdk.Motor
use joyson_glove_sdk.Encoder
use joyson_glove_sdk.Imu
use Parts.{GloveConfig, GloveSdk, System, on_sdk, on_world, on_client, on_motor, on_encoder, on_imu}

-- The configuration that `initialize` gives to its client.
unfoldable pub udp_config : GloveConfig → UdpConfig
udp_config c = record {
  server_ip = c.server_ip;
  server_port = c.server_port;
  local_port = c.local_port;
  send_timeout = c.send_timeout;
  receive_timeout = c.receive_timeout;
}

module _ {os : Os} {F : Type 0} ⦃fl : Float F⦄ where
  -- `imu_reader_.reset()`, with the destructor; the next two alike.
  unfoldable pub reset_imu : State (System os F) (Unit {0})
  reset_imu = do
    s ← gets (λ s. s.sdk)
    if is_some s.imu_reader then on_imu Imu.destroy else pure tt
    on_sdk (λ s. record s { imu_reader = none })

  unfoldable pub reset_encoder : State (System os F) (Unit {0})
  reset_encoder = do
    s ← gets (λ s. s.sdk)
    if is_some s.encoder_reader then on_encoder Encoder.destroy else pure tt
    on_sdk (λ s. record s { encoder_reader = none })

  unfoldable pub reset_motor : State (System os F) (Unit {0})
  reset_motor = do
    s ← gets (λ s. s.sdk)
    if is_some s.motor_controller then on_motor Motor.destroy else pure tt
    on_sdk (λ s. record s { motor_controller = none })

  -- `udp_client_.reset()`: the SDK is the last owner, and the destructor disconnects.
  unfoldable pub reset_client : State (System os F) (Unit {0})
  reset_client = do
    s ← gets (λ s. s.sdk)
    if is_some s.udp_client then on_client destroy else pure tt
    on_sdk (λ s. record s { udp_client = none })

  unfoldable pub cleanup_resources : State (System os F) (Unit {0})
  cleanup_resources = do
    reset_imu
    reset_encoder
    reset_motor
    s ← gets (λ s. s.sdk)
    if is_some s.udp_client then (do on_client disconnect; reset_client) else pure tt

  unfoldable pub ensure_initialized : State (System os F) Bool
  ensure_initialized = gets (λ s. s.sdk.initialized)

  -- The flag stays up where the thread is not created, and the exception goes on.
  unfoldable pub start : State (System os F) (Outcome (Unit {0}))
  start = do
    ready ← ensure_initialized
    t ← gets (λ s. s.sdk.thread)
    if not ready then pure (returned tt) else if t.running then pure (returned tt) else do
      on_sdk (λ s. record s { thread = record t { running = true } })
      started ← on_world os.start_thread
      if not started then pure threw else if t.joinable then lift out_of_bounds else do
        on_sdk (λ s. record s { thread = record { running = true; joinable = true } })
        pure (returned tt)

  -- Without what the thread still does before it is joined.
  unfoldable pub stop : State (System os F) (Unit {0})
  stop = do
    t ← gets (λ s. s.sdk.thread)
    if not t.running then pure tt else on_sdk (λ s. record s { thread = no_thread })

  unfoldable pub is_running : State (System os F) Bool
  is_running = gets (λ s. s.sdk.thread.running)

  -- A failed step of `initialize`.
  unfoldable pub fail : State (System os F) (Outcome Bool)
  fail = do cleanup_resources; pure (returned false)

  -- A step of `initialize`: on `false` the resources go, an exception leaves them.
  unfoldable pub require :
      Outcome Bool → State (System os F) (Outcome Bool) → State (System os F) (Outcome Bool)
  require (returned true) rest = rest
  require (returned false) rest = fail
  require threw rest = pure threw

  -- The end of `initialize`.
  unfoldable pub initialized : State (System os F) (Outcome Bool)
  initialized = do
    on_sdk (λ s. record s { initialized = true })
    c ← gets (λ s. s.sdk.config)
    if not c.auto_start_thread
        then pure (returned true)
        else do started ← start; pure (start_result started)

  unfoldable pub create_imu : State (System os F) (Outcome Bool)
  create_imu = do
    reader ←
        on_client (Imu.imu_reader (record { auto_start_thread = false; update_interval = 100 }))
    reset_imu
    on_sdk (λ s. record s { imu_reader = some (record { object = reader; thread = no_thread }) })
    on_imu Imu.initialize

  unfoldable pub create_encoder : State (System os F) (Outcome Bool)
  create_encoder = do
    reader ←
        on_client
          (Encoder.encoder_reader (record { auto_start_thread = false; update_interval = 100 }))
    reset_encoder
    on_sdk
        (λ s. record s { encoder_reader = some (record { object = reader; thread = no_thread }) })
    on_encoder Encoder.initialize

  unfoldable pub create_motor : State (System os F) (Outcome Bool)
  create_motor = do
    controller ←
        on_client
          (Motor.motor_controller (record { auto_start_thread = false; update_interval = 100 }))
    reset_motor
    on_sdk (λ s. record s {
      motor_controller = some (record { object = controller; thread = no_thread });
    })
    on_motor Motor.initialize

  unfoldable pub initialize : State (System os F) (Outcome Bool)
  initialize = do
    s ← gets (λ s. s.sdk)
    if s.initialized then pure (returned true) else do
      reset_client
      on_sdk (λ s. record s { udp_client = some (udp_client (udp_config s.config)) })
      joined ← on_client connect
      if not joined then fail else do
        motor ← create_motor
        require motor (do
          encoder ← create_encoder
          require encoder (do imu ← create_imu; require imu initialized))

  unfoldable pub shutdown : State (System os F) (Unit {0})
  shutdown = do
    ready ← ensure_initialized
    if not ready
        then pure tt
        else do stop; on_sdk (λ s. record s { initialized = false }); cleanup_resources

  -- The destructor.
  abbrev pub destroy_sdk : State (System os F) (Unit {0})
  destroy_sdk = shutdown

  -- A method that is forwarded where the SDK is initialized; else `a` is returned.
  unfoldable pub forward : {A : Type 0} → A → State (System os F) A → State (System os F) A
  forward a m = do ready ← ensure_initialized; if not ready then pure a else m

  unfoldable pub set_motor_mode : ℕ → ℕ → State (System os F) Bool
  set_motor_mode motor_id mode = forward false (on_motor (Motor.set_motor_mode motor_id mode))

  unfoldable pub set_all_modes : ℕ → State (System os F) Bool
  set_all_modes mode = forward false (on_motor (Motor.set_all_modes mode))

  unfoldable pub set_motor_position : ℕ → ℕ → State (System os F) Bool
  set_motor_position motor_id position =
      forward false (on_motor (Motor.set_motor_position motor_id position))

  unfoldable pub set_motor_force : ℕ → ℕ → State (System os F) Bool
  set_motor_force motor_id force = forward false (on_motor (Motor.set_motor_force motor_id force))

  unfoldable pub set_motor_speed : ℕ → ℕ → ℕ → State (System os F) Bool
  set_motor_speed motor_id speed target_position =
      forward false (on_motor (Motor.set_motor_speed motor_id speed target_position))

  unfoldable pub set_all_positions : List ℕ → State (System os F) Bool
  set_all_positions positions = forward false (on_motor (Motor.set_all_positions positions))

  unfoldable pub set_all_forces : List ℕ → State (System os F) Bool
  set_all_forces forces = forward false (on_motor (Motor.set_all_forces forces))

  unfoldable pub get_encoder_angles : State (System os F) (List F)
  get_encoder_angles =
      forward (replicate num_encoder_channels (fl.of_ℕ 0)) (on_encoder Encoder.get_cached_angles)

  -- `ImuData{}`, with the clock's epoch, where the SDK is not initialized.
  unfoldable pub get_imu_orientation : State (System os F) (ImuData F)
  get_imu_orientation =
      forward (record { roll = fl.of_ℕ 0; pitch = fl.of_ℕ 0; yaw = fl.of_ℕ 0; timestamp = 0 })
        (on_imu Imu.get_cached_data)

  unfoldable pub calibrate_encoders : State (System os F) Bool
  calibrate_encoders = forward false (on_encoder Encoder.calibrate_zero_point)

  unfoldable pub calibrate_imu : State (System os F) Bool
  calibrate_imu = forward false (on_imu Imu.calibrate_zero_orientation)

  unfoldable pub calibrate_all : State (System os F) Bool
  calibrate_all = forward false (do
    encoder_success ← calibrate_encoders
    imu_success ← calibrate_imu
    pure (encoder_success && imu_success))

  unfoldable pub get_network_statistics : State (System os F) NetworkStatistics
  get_network_statistics = do
    s ← gets (λ s. s.sdk)
    if not s.initialized || not (is_some s.udp_client)
        then pure no_statistics
        else on_client get_statistics

  unfoldable pub reset_network_statistics : State (System os F) (Unit {0})
  reset_network_statistics = do
    s ← gets (λ s. s.sdk)
    if s.initialized && is_some s.udp_client then on_client reset_statistics else pure tt
