-- ===== src/Sdk/Calls.antt =====
-- The calls that a program makes on a `GloveSDK`, include/joyson_glove/glove_sdk.hpp, as data.
use joyson_glove_sdk.Prelude.{ℕ, ◌<◌, ◌^◌, ◌≡◌, List, [], ◌∷◌, length}
use joyson_glove_sdk.Prelude.Float.{Float}
use joyson_glove_sdk.Prelude.State.{State, pure, ◌>>=◌, ◌>>◌}
use joyson_glove_sdk.Udp.Os.{Os}
use joyson_glove_sdk.Sdk
use joyson_glove_sdk.Sdk.{forward, ensure_initialized}
use joyson_glove_sdk.Sdk.Parts.{System}

pub data ApiCall : Type 0 where
  initializing shutting_down starting stopping : ApiCall
  setting_mode setting_position setting_force : ℕ → ℕ → ApiCall
  setting_speed : ℕ → ℕ → ℕ → ApiCall
  setting_all_modes : ℕ → ApiCall
  setting_all_positions setting_all_forces : List ℕ → ApiCall
  reading_angles reading_orientation reading_statistics resetting_statistics : ApiCall
  calibrating calibrating_encoders calibrating_imu : ApiCall

-- The arguments as C++ takes them: a `uint16_t`, and arrays of six.
abbrev pub IsTyped : ApiCall → Type 0
IsTyped (setting_speed id s p) = s < 2 ^ 16
IsTyped (setting_all_positions positions) = length positions ≡ 6
IsTyped (setting_all_forces forces) = length forces ≡ 6
IsTyped _ = Unit

module _ {os : Os} {F : Type 0} ⦃fl : Float F⦄ where
  abbrev pub dropping : {A : Type 0} → State (System os F) A → State (System os F) (Unit {0})
  dropping m = m >>= λ _. pure tt

  -- A call, without its result; an exception is caught.
  unfoldable pub perform : ApiCall → State (System os F) (Unit {0})
  perform initializing = dropping Sdk.initialize
  perform shutting_down = Sdk.shutdown
  perform starting = dropping Sdk.start
  perform stopping = Sdk.stop
  perform (setting_mode id m) = dropping (Sdk.set_motor_mode id m)
  perform (setting_position id p) = dropping (Sdk.set_motor_position id p)
  perform (setting_force id f) = dropping (Sdk.set_motor_force id f)
  perform (setting_speed id s p) = dropping (Sdk.set_motor_speed id s p)
  perform (setting_all_modes m) = dropping (Sdk.set_all_modes m)
  perform (setting_all_positions positions) = dropping (Sdk.set_all_positions positions)
  perform (setting_all_forces forces) = dropping (Sdk.set_all_forces forces)
  perform reading_angles = dropping Sdk.get_encoder_angles
  perform reading_orientation = dropping Sdk.get_imu_orientation
  perform reading_statistics = dropping Sdk.get_network_statistics
  perform resetting_statistics = Sdk.reset_network_statistics
  perform calibrating = dropping Sdk.calibrate_all
  perform calibrating_encoders = dropping Sdk.calibrate_encoders
  perform calibrating_imu = dropping Sdk.calibrate_imu

  unfoldable pub perform_calls : List ApiCall → State (System os F) (Unit {0})
  perform_calls [] = pure tt
  perform_calls (call ∷ calls) = perform call >> perform_calls calls
