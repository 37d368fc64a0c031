-- ===== src/Encoder.antt =====
-- `class EncoderReader`: include/joyson_glove/encoder_reader.hpp, src/encoder_reader.cpp.
pub mod Calibration
pub mod Conversion
pub mod ZeroPoint
pub mod Keeps
pub mod Calibrating
pub mod Served
use joyson_glove_sdk.Prelude.{ℕ, Bool, true, false, Option, none, some, List, replicate}
use joyson_glove_sdk.Prelude.Float.{Float}
use joyson_glove_sdk.Prelude.Int.{ℤ}
use joyson_glove_sdk.Prelude.State.{State, on_option, pure, ◌>>=◌, ◌>>◌, gets, lift}
use joyson_glove_sdk.Protocol.Constants.{num_encoder_channels}
use joyson_glove_sdk.Protocol.Codec.{encode_read_all_encoders}
use joyson_glove_sdk.Protocol.Parse.{EncoderData, parse_encoder_data}
use joyson_glove_sdk.Udp.Os.{Os}
use joyson_glove_sdk.Udp.Client.{Link, sys}
use joyson_glove_sdk.Device.Loop.{repeat_updates}
use joyson_glove_sdk.Device.{
  Device, Outcome, returned, on_object, on_link, milliseconds_since, fetch, finish_initialize,
  start_thread, stop_thread,
}
use Calibration.{EncoderCalibration, no_calibration, adc_to_voltages, voltages_to_angles}

pub record EncoderReaderConfig : Type 0 where
  pub auto_start_thread : Bool
  pub update_interval : ℕ

-- The thread is in the `Device`.
pub record EncoderReader (F : Type 0) : Type 0 where
  pub config : EncoderReaderConfig
  pub cached_data : EncoderData
  pub calibration : EncoderCalibration F

module _ {os : Os} {F : Type 0} ⦃fl : Float F⦄ where
  -- The constructor.
  unfoldable pub encoder_reader : EncoderReaderConfig → State (Link os) (EncoderReader F)
  encoder_reader config = do
    now ← sys os.steady_now
    pure (record {
      config = config;
      cached_data = record { adc_values = replicate num_encoder_channels 0; timestamp = now };
      calibration = no_calibration;
    })

  unfoldable pub read_encoders : State (Device os (EncoderReader F)) (Option EncoderData)
  read_encoders = fetch encode_read_all_encoders parse_encoder_data

  abbrev set_cached_data : EncoderData → State (Device os (EncoderReader F)) (Unit {0})
  set_cached_data data_read = on_object (λ r. record r { cached_data = data_read })

  unfoldable pub initialize : State (Device os (EncoderReader F)) (Outcome Bool)
  initialize = do
    value ← read_encoders
    on_option (pure (returned false))
        (λ data_read. do
          set_cached_data data_read
          c ← gets (λ d. d.object.config)
          finish_initialize c.auto_start_thread)
        value

  unfoldable pub get_cached_data : State (Device os (EncoderReader F)) EncoderData
  get_cached_data = gets (λ d. d.object.cached_data)

  unfoldable pub get_cached_angles : State (Device os (EncoderReader F)) (List F)
  get_cached_angles = do
    data_read ← get_cached_data
    voltages ← lift (adc_to_voltages data_read.adc_values)
    c ← gets (λ d. d.object.calibration)
    lift (voltages_to_angles c voltages)

  unfoldable pub calibrate_zero_point : State (Device os (EncoderReader F)) Bool
  calibrate_zero_point = do
    value ← read_encoders
    on_option (pure false)
        (λ data_read. do
          voltages ← lift (adc_to_voltages data_read.adc_values)
          on_object (λ r. record r {
            calibration = record {
              zero_voltages = voltages;
              scale_factors = replicate num_encoder_channels (fl.of_ℕ 1);
              is_calibrated = true;
            };
          })
          set_cached_data data_read
          pure true)
        value

  unfoldable pub get_calibration : State (Device os (EncoderReader F)) (EncoderCalibration F)
  get_calibration = gets (λ d. d.object.calibration)

  unfoldable pub set_calibration :
      EncoderCalibration F → State (Device os (EncoderReader F)) (Unit {0})
  set_calibration c = on_object (λ r. record r { calibration = c })

  -- In milliseconds.
  unfoldable pub get_data_age : State (Device os (EncoderReader F)) ℤ
  get_data_age = do
    now ← on_link (sys os.steady_now)
    data_read ← gets (λ d. d.object.cached_data)
    pure (milliseconds_since now data_read.timestamp)

  unfoldable pub update_once : State (Device os (EncoderReader F)) Bool
  update_once = do
    value ← read_encoders
    elim value [ none ↦ pure false | some data_read ↦ do set_cached_data data_read; pure true ]

  unfoldable pub update_loop : List Bool → State (Device os (EncoderReader F)) ℕ
  update_loop loads = repeat_updates (λ r. r.config.update_interval) update_once loads 0

  unfoldable pub start_update_thread : State (Device os (EncoderReader F)) (Outcome (Unit {0}))
  start_update_thread = start_thread

  unfoldable pub stop_update_thread : State (Device os (EncoderReader F)) (Unit {0})
  stop_update_thread = stop_thread

  -- The destructor.
  abbrev pub destroy : State (Device os (EncoderReader F)) (Unit {0})
  destroy = stop_update_thread
