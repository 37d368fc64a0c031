-- ===== src/Examples/MotorControl.antt =====
-- `main` of examples/basic_motor_control.cpp.
use joyson_glove_sdk.Prelude.{ℕ, zero, suc, ◌+◌, ◌-◌, ◌*◌, ◌^◌, false, List, [], ◌∷◌, if◌then◌else◌}
use joyson_glove_sdk.Prelude.Float.{Float}
use joyson_glove_sdk.Prelude.Monad.{Checked}
use joyson_glove_sdk.Prelude.State.{State, pure, ◌>>=◌, ◌>>◌, lift, on_option}
use joyson_glove_sdk.Protocol.Constants.{mode_position, num_motors}
use joyson_glove_sdk.Protocol.Packet.{at}
use joyson_glove_sdk.Udp.Os.{Os}
use joyson_glove_sdk.Device.{Outcome, returned}
use joyson_glove_sdk.Motor
use joyson_glove_sdk.Sdk
use joyson_glove_sdk.Sdk.Parts.{GloveConfig, default_config, System, on_motor}
use joyson_glove_sdk.Examples.{or_fail, or_exit, sleep, run_main}

unfoldable pub motor_control_config : GloveConfig
motor_control_config = record default_config {
  send_timeout = 500;
  receive_timeout = 500;
  auto_start_thread = false;
}

unfoldable pub target_positions : List ℕ
target_positions = 500 ∷ 600 ∷ 700 ∷ 800 ∷ 900 ∷ 1000 ∷ []

module _ {os : Os} {F : Type 0} ⦃fl : Float F⦄ where
  -- Step 5, for `rounds` more motors from `motor_id` on.
  unfoldable pub read_statuses : ℕ → ℕ → State (System os F) (Unit {0})
  read_statuses motor_id zero = pure tt
  read_statuses motor_id (suc rounds) = do
    status ← on_motor (Motor.get_motor_status motor_id)
    on_option (pure tt) (λ _. do lift (at target_positions (motor_id - 1)); pure tt) status
    read_statuses (motor_id + 1) rounds

  -- Step 6.
  unfoldable pub move_first_motor : State (System os F) (Unit {0})
  move_first_motor = do
    moved ← Sdk.set_motor_position 1 1500
    if moved then (do sleep (10 ^ 9); on_motor (Motor.get_motor_status 1); pure tt) else pure tt

  -- Steps 4 to 8.
  unfoldable pub watch_motors : State (System os F) (Outcome ℕ)
  watch_motors = do
    sleep (2 * 10 ^ 9)
    read_statuses 1 num_motors
    move_first_motor
    Sdk.get_network_statistics
    Sdk.shutdown
    pure (returned 0)

  -- `main` between the constructor and the destructor of its SDK.
  unfoldable pub control_motors : State (System os F) (Outcome ℕ)
  control_motors = do
    ready ← Sdk.initialize
    or_exit
        (do
          modes ← on_motor (Motor.set_all_modes mode_position)
          or_fail
              (do
                positions ← Sdk.set_all_positions target_positions
                or_fail watch_motors positions)
              modes)
        ready

  unfoldable pub motor_control_main : os.World → Checked (Outcome ℕ × System os F)
  motor_control_main = run_main motor_control_config control_motors
