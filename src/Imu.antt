-- ===== src/Imu.antt =====
-- `class ImuReader`: include/joyson_glove/imu_reader.hpp, src/imu_reader.cpp.
pub mod Keeps
pub mod Orientation
pub mod Served
use joyson_glove_sdk.Prelude.{ℕ, Bool, true, false, not, Option, none, some, List, if◌then◌else◌}
use joyson_glove_sdk.Prelude.Float.{Float}
use joyson_glove_sdk.Prelude.Int.{ℤ}
use joyson_glove_sdk.Prelude.State.{State, on_option, pure, ◌>>=◌, ◌>>◌, gets}
use joyson_glove_sdk.Protocol.Codec.{encode_read_imu}
use joyson_glove_sdk.Protocol.Parse.{ImuData, parse_imu_data}
use joyson_glove_sdk.Udp.Os.{Os}
use joyson_glove_sdk.Udp.Client.{Link, sys}
use joyson_glove_sdk.Device.Loop.{repeat_updates}
use joyson_glove_sdk.Device.{
  Device, Outcome, returned, on_object, on_link, milliseconds_since, fetch, finish_initialize,
  start_thread, stop_thread,
}

pub record ImuCalibration (F : Type 0) : Type 0 where
  pub roll_offset : F
  pub pitch_offset : F
  pub yaw_offset : F
  pub is_calibrated : Bool

pub record ImuReaderConfig : Type 0 where
  pub auto_start_thread : Bool
  pub update_interval : ℕ

-- The thread is in the `Device`.
pub record ImuReader (F : Type 0) : Type 0 where
  pub config : ImuReaderConfig
  pub cached_data : ImuData F
  pub calibration : ImuCalibration F

module _ {F : Type 0} ⦃fl : Float F⦄ where
  -- `ImuCalibration{}`
  unfoldable pub no_calibration : ImuCalibration F
  no_calibration = record {
    roll_offset = fl.of_ℕ 0;
    pitch_offset = fl.of_ℕ 0;
    yaw_offset = fl.of_ℕ 0;
    is_calibrated = false;
  }

  -- Also `apply_calibration`, which takes the lock.
  unfoldable pub apply_calibration_unsafe : ImuCalibration F → ImuData F → ImuData F
  apply_calibration_unsafe c raw_data = if not c.is_calibrated then raw_data else record raw_data {
    roll = fl.sub raw_data.roll c.roll_offset;
    pitch = fl.sub raw_data.pitch c.pitch_offset;
    yaw = fl.fmod (fl.add (fl.sub raw_data.yaw c.yaw_offset) (fl.of_ℕ 360)) (fl.of_ℕ 360);
  }

module _ {os : Os} {F : Type 0} ⦃fl : Float F⦄ where
  -- The constructor.
  unfoldable pub imu_reader : ImuReaderConfig → State (Link os) (ImuReader F)
  imu_reader config = do
    now ← sys os.steady_now
    pure (record {
      config = config;
      cached_data = record {
        roll = fl.of_ℕ 0;
        pitch = fl.of_ℕ 0;
        yaw = fl.of_ℕ 0;
        timestamp = now;
      };
      calibration = no_calibration;
    })

  unfoldable pub read_imu : State (Device os (ImuReader F)) (Option (ImuData F))
  read_imu = fetch encode_read_imu parse_imu_data

  -- The cached data become the calibrated data.
  abbrev cache_calibrated : ImuData F → State (Device os (ImuReader F)) (Unit {0})
  cache_calibrated raw_data =
      on_object (λ r. record r { cached_data = apply_calibration_unsafe r.calibration raw_data })

  unfoldable pub initialize : State (Device os (ImuReader F)) (Outcome Bool)
  initialize = do
    value ← read_imu
    on_option (pure (returned false))
        (λ raw_data. do
          cache_calibrated raw_data
          c ← gets (λ d. d.object.config)
          finish_initialize c.auto_start_thread)
        value

  unfoldable pub get_cached_data : State (Device os (ImuReader F)) (ImuData F)
  get_cached_data = gets (λ d. d.object.cached_data)

  unfoldable pub calibrate_zero_orientation : State (Device os (ImuReader F)) Bool
  calibrate_zero_orientation = do
    value ← read_imu
    on_option (pure false)
        (λ raw_data. do
          on_object (λ r. record r {
            calibration = record {
              roll_offset = raw_data.roll;
              pitch_offset = raw_data.pitch;
              yaw_offset = raw_data.yaw;
              is_calibrated = true;
            };
          })
          cache_calibrated raw_data
          pure true)
        value

  unfoldable pub get_calibration : State (Device os (ImuReader F)) (ImuCalibration F)
  get_calibration = gets (λ d. d.object.calibration)

  unfoldable pub set_calibration : ImuCalibration F → State (Device os (ImuReader F)) (Unit {0})
  set_calibration c = on_object (λ r. record r { calibration = c })

  -- In milliseconds.
  unfoldable pub get_data_age : State (Device os (ImuReader F)) ℤ
  get_data_age = do
    now ← on_link (sys os.steady_now)
    raw_data ← gets (λ d. d.object.cached_data)
    pure (milliseconds_since now raw_data.timestamp)

  unfoldable pub update_once : State (Device os (ImuReader F)) Bool
  update_once = do
    value ← read_imu
    elim value [ none ↦ pure false | some raw_data ↦ do cache_calibrated raw_data; pure true ]

  unfoldable pub update_loop : List Bool → State (Device os (ImuReader F)) ℕ
  update_loop loads = repeat_updates (λ r. r.config.update_interval) update_once loads 0

  unfoldable pub start_update_thread : State (Device os (ImuReader F)) (Outcome (Unit {0}))
  start_update_thread = start_thread

  unfoldable pub stop_update_thread : State (Device os (ImuReader F)) (Unit {0})
  stop_update_thread = stop_thread

  -- The destructor.
  abbrev pub destroy : State (Device os (ImuReader F)) (Unit {0})
  destroy = stop_update_thread
