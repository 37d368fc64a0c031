-- ===== src/Testbed/Parts.antt =====
-- Examples for src/motor_controller.cpp, src/encoder_reader.cpp, src/imu_reader.cpp and
-- src/glove_sdk.cpp.
use joyson_glove_sdk.Prelude.{
  ℕ, ◌+◌, ◌-◌, ◌*◌, ◌/◌, ◌%◌, ◌^◌, ◌<◌, ◌≡◌, refl, arith, Bool, true, false, not, Each,
  All-replicate, none, Option, List, [], ◌∷◌, length, replicate,
}
use joyson_glove_sdk.Prelude.State.{pure, ◌>>=◌, Returns, Returns->>=, Returns-if}
use joyson_glove_sdk.Protocol.Packet.{Packet}
use joyson_glove_sdk.Protocol.Parse.{ImuData, MotorStatus}
use joyson_glove_sdk.Protocol.Parse.Motor.{IsCut}
use joyson_glove_sdk.Udp.Client.{Link, send_packet, receive_packet, on_received, send_and_receive}
use joyson_glove_sdk.Udp.Sockets.{IsValid}
use joyson_glove_sdk.Device.{Device, no_thread}
use joyson_glove_sdk.Device.Keeps.{IsStable, IsSound}
use joyson_glove_sdk.Motor.{MotorController, update_once}
use joyson_glove_sdk.Motor.Keeps.{IsController}
use joyson_glove_sdk.Motor.Polls.{some_answered, Polls}
use joyson_glove_sdk.Motor.Updates.{update_once-IsSound}
use joyson_glove_sdk.Encoder.{EncoderReader, calibrate_zero_point, get_cached_angles}
use joyson_glove_sdk.Encoder.Keeps as EncoderKeeps
use joyson_glove_sdk.Encoder.ZeroPoint.{CalibrationLaws, AreZero}
use joyson_glove_sdk.Encoder.Calibrating.{calibrate_zero_point-zero}
use joyson_glove_sdk.Imu.{ImuCalibration, apply_calibration_unsafe}
use joyson_glove_sdk.Imu.Keeps as ImuKeeps
use joyson_glove_sdk.Imu.Orientation.{
  OrientationLaws, DegreeLaws, IsLevel, apply_calibration-IsLevel, apply_calibration-yaw,
}
use joyson_glove_sdk.Sdk.Stable.{sockets_stable}
use joyson_glove_sdk.Testbed.{next_datagram, test_os, test_laws, whole_numbers}
use joyson_glove_sdk.Testbed.Runs.{
  first_world, test_link, test_link-IsValid, test_motors, test_motor_config,
}

pub test_motors-IsSound :
    IsSound (IsValid test_laws (λ _. false)) (IsController test_motor_config) test_motors
test_motors-IsSound = record {
  link = test_link-IsValid;
  object = record { same = refl; slots = refl };
  thread = refl;
}

-- Nothing more arrives.
abbrev pub IsQuiet : Link test_os → Type 0
IsQuiet l = l.world.inbox ≡ []

pub receive_packet-IsQuiet :
    (l : Link test_os)
    → IsQuiet l
    → Returns (receive_packet l) (λ r t. IsQuiet t × Each (λ p. ¬ (IsCut p)) r)
unfolding receive_packet on_received
receive_packet-IsQuiet l h =
    Returns-if (not l.client.connected) _ _ _ l (λ _. (h, tt)) (λ _. by_inbox l.world.inbox h)
  where
    by_inbox :
        (inbox : List (List ℕ))
        → inbox ≡ []
        → Returns
            (on_received
              ((next_datagram (record l.world { inbox = inbox })).0)
              (record l { world = (next_datagram (record l.world { inbox = inbox })).1 }))
            (λ r t. IsQuiet t × Each (λ p. ¬ (IsCut p)) r)
    by_inbox [] e = (refl, tt)
    by_inbox (x ∷ xs) e = absurd (not_empty e)
      where
        not_empty : ¬ (x ∷ xs ≡ [])
        not_empty e = cc

pub send_packet-IsQuiet :
    (p : Packet) (l : Link test_os) → IsQuiet l → Returns (send_packet p l) (λ _ t. IsQuiet t)
unfolding send_packet
send_packet-IsQuiet p l h = Returns-if (not l.client.connected) _ _ _ l (λ _. h) (λ _. h)

pub IsQuiet-stable : IsStable IsQuiet (λ p. ¬ (IsCut p))
unfolding send_and_receive
IsQuiet-stable = record {
  exchange = λ p l h.
      Returns->>= (send_packet p) _ (λ _ t. IsQuiet t) _ l (send_packet-IsQuiet p l h)
        (λ done t k.
          Returns-if (not done) (pure none) receive_packet _ t (λ _. (k, tt))
            (λ _. receive_packet-IsQuiet t k));
  tick = λ l h. h;
  start = λ l h. h;
  sleep = λ nanoseconds l h. h;
}

abbrev pub quiet_motors : Device test_os MotorController
quiet_motors = record test_motors {
  link = record test_link { world = record first_world { in_use = true; inbox = [] } };
}

update_once-IsSound_example :
    Returns (update_once quiet_motors) (λ done (t : Device test_os MotorController).
      IsSound IsQuiet (IsController test_motor_config) t
      × (answers : List (Option MotorStatus)) × (length answers ≡ 6)
      × Polls 1 quiet_motors answers t
      × (done ≡ some_answered answers)
      × (done ≡ false → t.object ≡ quiet_motors.object))
update_once-IsSound_example =
    update_once-IsSound IsQuiet-stable test_motor_config (λ p whole. whole) quiet_motors
      (record { link = refl; object = record { same = refl; slots = refl }; thread = refl })

abbrev pub test_encoder : Device test_os (EncoderReader ℕ)
test_encoder = record {
  object = record {
    config = record { auto_start_thread = false; update_interval = 100 };
    cached_data = record { adc_values = replicate 16 0; timestamp = 0 };
    calibration = record {
      zero_voltages = replicate 16 (0);
      scale_factors = replicate 16 (1);
      is_calibrated = false;
    };
  };
  thread = no_thread;
  link = test_link;
}

pub whole_calibration : CalibrationLaws ℕ ⦃fl = whole_numbers⦄
whole_calibration = record {
  sub_self = λ n b. self (n * 4 / 65536);
  zero_mul = λ n c. omega arith;
  zero_div = λ n b c. omega arith;
}
  where
    self : (x : ℕ) → (x + 3600 - x) % 3600 ≡ 0
    self x = omega arith

pub test_encoder-IsSound :
    IsSound
      (IsValid test_laws (λ _. false))
      (EncoderKeeps.IsReader test_encoder.object.config)
      test_encoder
test_encoder-IsSound = record {
  link = test_link-IsValid;
  object = record {
    same = refl;
    cached = record { channels = refl; typed = All-replicate (λ n. n < 2 ^ 16) 16 0 (omega arith) };
    calibrated = record { zeros = refl; scales = refl };
  };
  thread = refl;
}

calibrate_zero_point-zero_example :
    Returns
      ((calibrate_zero_point ⦃fl = whole_numbers⦄ >>= λ done.
          get_cached_angles ⦃fl = whole_numbers⦄ >>= λ angles. pure (done, angles))
        test_encoder)
      (λ (r : Bool × List ℕ) (_ : Device test_os (EncoderReader ℕ)).
        r.0 ≡ true → AreZero ⦃fl = whole_numbers⦄ (r.1))
calibrate_zero_point-zero_example =
    calibrate_zero_point-zero ⦃fl = whole_numbers⦄ (sockets_stable test_laws (λ _. false))
      test_encoder.object.config whole_calibration test_encoder test_encoder-IsSound

pub whole_degrees : DegreeLaws ℕ ⦃fl = whole_numbers⦄
whole_degrees = record { add_sub = λ a b ha hb. omega arith; fmod_whole = λ a b ha hb hc. refl }

abbrev pub test_orientation : ImuData ℕ
test_orientation = record { roll = 10; pitch = 20; yaw = 5; timestamp = 0 }

abbrev pub test_offsets : ImuCalibration ℕ
test_offsets = record { roll_offset = 0; pitch_offset = 0; yaw_offset = 350; is_calibrated = true }

apply_calibration-yaw_example :
    (n : ℕ) × (n < 360)
    × ((n + 350) % 360 ≡ 5)
    × ((apply_calibration_unsafe ⦃fl = whole_numbers⦄ test_offsets test_orientation).yaw ≡ n)
apply_calibration-yaw_example =
    apply_calibration-yaw ⦃fl = whole_numbers⦄ whole_degrees test_offsets test_orientation 5 350
      refl refl refl (omega arith) (omega arith)

pub whole_orientation : OrientationLaws ℕ ⦃fl = whole_numbers⦄
whole_orientation = record {
  IsFinite = λ x. Unit {0};
  sub_self = λ x h. omega arith;
  zero_add = refl;
  fmod_self = refl;
}

apply_calibration-IsLevel_example : IsLevel ⦃fl = whole_numbers⦄ (
    apply_calibration_unsafe ⦃fl = whole_numbers⦄
      (ImuKeeps.zero_orientation test_orientation)
      test_orientation)
unfolding whole_orientation
apply_calibration-IsLevel_example =
    apply_calibration-IsLevel ⦃fl = whole_numbers⦄ whole_orientation test_orientation tt tt tt
