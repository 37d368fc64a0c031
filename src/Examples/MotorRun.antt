-- ===== src/Examples/MotorRun.antt =====
-- How examples/basic_motor_control.cpp ends.
use joyson_glove_sdk.Prelude.{
  ℕ, zero, suc, ◌+◌, ◌-◌, ◌*◌, ◌^◌, if◌then◌else◌, false, ◌≤◌, refl, arith, Bool, Option, none,
  some,
}
use joyson_glove_sdk.Prelude.Float.{Float}
use joyson_glove_sdk.Prelude.Monad.{Total-Yields}
use joyson_glove_sdk.Prelude.State.{
  State, pure, lift, ◌>>◌, on_option, Returns, Returns->>=, Returns-lift,
}
use joyson_glove_sdk.Protocol.Constants.{mode_position}
use joyson_glove_sdk.Protocol.Packet.{at}
use joyson_glove_sdk.Protocol.Parse.{MotorStatus}
use joyson_glove_sdk.Protocol.Parse.Words.{at-Total}
use joyson_glove_sdk.Udp.Os.{Os}
use joyson_glove_sdk.Udp.Sockets.{SocketLaws}
use joyson_glove_sdk.Motor
use joyson_glove_sdk.Motor.Keeps as MotorKeeps
use joyson_glove_sdk.Motor.Answers as MotorAnswers
use joyson_glove_sdk.Sdk
use joyson_glove_sdk.Sdk.Parts.{System, on_motor}
use joyson_glove_sdk.Sdk.Stable.{sockets_stable}
use joyson_glove_sdk.Sdk.States.{motor_config}
use joyson_glove_sdk.Sdk.Lifecycle.{IsIdle, IsReady}
use joyson_glove_sdk.Sdk.CallKeeps.{IsReadyWith, KeepsReady, motor-KeepsReady}
use joyson_glove_sdk.Sdk.Forwarded.{forwarded-KeepsReady}
use joyson_glove_sdk.Examples.{sleep}
use joyson_glove_sdk.Examples.MotorControl.{
  motor_control_config, target_positions, read_statuses, move_first_motor, watch_motors,
  control_motors, motor_control_main,
}
use joyson_glove_sdk.Examples.Steps.{
  Ends, Exits, then-Ends, or_fail-Ends, initialize-Ends, shutdown-Ends, sleep-KeepsWhole,
  statistics-KeepsWhole, seq-KeepsWhole, if-KeepsWhole, run_main-Exits,
}
use joyson_glove_sdk.Sdk.Uncut.{NeverCuts, never_stable}

module _ {os : Os} (F : Type 0) ⦃fl : Float F⦄ (laws : SocketLaws os) (never : NeverCuts os)
    (others : ℕ → Bool) where
  get_motor_status-KeepsReady :
      (motor_id : ℕ) → KeepsReady {F = F} laws others (on_motor (Motor.get_motor_status motor_id))
  get_motor_status-KeepsReady motor_id =
      motor-KeepsReady laws others (Motor.get_motor_status motor_id) (
        MotorAnswers.get_motor_status-IsSound (never_stable never laws others) (λ p n. n)
          (MotorKeeps.IsController motor_config) motor_id)

  positions-KeepsReady : KeepsReady {F = F} laws others (Sdk.set_all_positions target_positions)
  unfolding Sdk.set_all_positions target_positions
  positions-KeepsReady = forwarded-KeepsReady F laws others _ _ (
      motor-KeepsReady laws others _ (
        MotorKeeps.set_all_positions-Keeps (sockets_stable laws others) motor_config
          target_positions refl))

  read_statuses-KeepsReady :
      (motor_id rounds : ℕ)
      → 1 ≤ motor_id
      → motor_id + rounds ≤ 7
      → KeepsReady {F = F} laws others (read_statuses motor_id rounds)
  unfolding read_statuses target_positions
  read_statuses-KeepsReady motor_id zero low high = λ T s h. h
  read_statuses-KeepsReady motor_id (suc rounds) low high =
      seq-KeepsWhole F laws others (on_motor (Motor.get_motor_status motor_id)) _
        (get_motor_status-KeepsReady motor_id)
        (λ status.
          seq-KeepsWhole F laws others _ _ (shown status)
            (λ _. read_statuses-KeepsReady (motor_id + 1) rounds (omega arith) (omega arith)))
    where
      shown :
          (status : Option MotorStatus)
          → KeepsReady {F = F} laws others (
              on_option
                (pure tt)
                (λ _. do lift (at target_positions (motor_id - 1)); pure tt)
                status)
      shown none = λ T s h. h
      shown (some _) = λ T s h.
          Returns->>= (lift (at target_positions (motor_id - 1))) _
            (λ _ t. IsReadyWith laws others T t) _ s
            (Returns-lift (at target_positions (motor_id - 1)) _ _ s
              (Total-Yields (at target_positions (motor_id - 1))
                (at-Total target_positions (motor_id - 1) (omega arith)))
              (λ _ _. h))
            (λ _ t k. k)

  -- What follows a position that was set.
  abbrev read_later : State (System os F) (Unit {0})
  read_later = do on_motor (Motor.get_motor_status 1); pure tt

  move_first_motor-KeepsReady : KeepsReady {F = F} laws others move_first_motor
  unfolding move_first_motor Sdk.set_motor_position
  move_first_motor-KeepsReady =
      seq-KeepsWhole F laws others (Sdk.set_motor_position 1 1500)
        (λ moved. if moved then (do sleep (10 ^ 9); read_later) else pure tt)
        (forwarded-KeepsReady F laws others false (on_motor (Motor.set_motor_position 1 1500)) (
          motor-KeepsReady laws others (Motor.set_motor_position 1 1500)
            (MotorKeeps.set_motor_position-Keeps (sockets_stable laws others) motor_config 1 1500)))
        (λ moved.
          if-KeepsWhole F laws others moved (do sleep (10 ^ 9); read_later) (pure tt)
            (seq-KeepsWhole F laws others (sleep (10 ^ 9)) (λ _. read_later)
              (sleep-KeepsWhole F laws others (10 ^ 9))
              (λ _.
                seq-KeepsWhole F laws others (on_motor (Motor.get_motor_status 1)) (λ _. pure tt)
                  (get_motor_status-KeepsReady 1) (λ _ T s h. h)))
            (λ T s h. h))

  watch_motors-Ends :
      (s : System os F) → IsReady laws others s → Returns (watch_motors s) (Ends F laws others)
  unfolding watch_motors
  watch_motors-Ends s h =
      then-Ends F laws others (sleep (2 * 10 ^ 9)) _ s (sleep-KeepsWhole F laws others (2 * 10 ^ 9))
        h
        (λ _ s h.
          then-Ends F laws others (read_statuses 1 6) _ s
            (read_statuses-KeepsReady 1 6 (omega arith) (omega arith)) h
            (λ _ s h.
              then-Ends F laws others move_first_motor _ s move_first_motor-KeepsReady h (λ _ s h.
                then-Ends F laws others Sdk.get_network_statistics _ s
                  (statistics-KeepsWhole F laws others) h
                  (λ _ s h. shutdown-Ends F laws others s h))))

  control_motors-Ends :
      (s : System os F) → IsIdle laws others s → Returns (control_motors s) (Ends F laws others)
  unfolding control_motors
  control_motors-Ends s h = initialize-Ends F laws others _ s h (λ s h.
      then-Ends F laws others (on_motor (Motor.set_all_modes mode_position)) _ s
        (motor-KeepsReady laws others (Motor.set_all_modes mode_position)
          (MotorKeeps.set_all_modes-Keeps (sockets_stable laws others) motor_config mode_position))
        h
        (λ modes s h. or_fail-Ends F laws others _ modes s h (
          then-Ends F laws others (Sdk.set_all_positions target_positions) _ s positions-KeepsReady
            h
            (λ positions s h.
              or_fail-Ends F laws others watch_motors positions s h (watch_motors-Ends s h)))))

module _ {os : Os} (F : Type 0) ⦃fl : Float F⦄ (laws : SocketLaws os) (never : NeverCuts os) where
  -- Where the system keeps its descriptors as `SocketLaws` say and the board sends no motor response
  -- with a body of 18 bytes, basic_motor_control ends in any world, whatever else the board answers:
  -- no null pointer is followed and no read leaves its array. Its exit code is 0 or 1, and then just
  -- those descriptors are open that were open before it; or an exception that is not caught ends it,
  -- with the SDK whole.
  pub motor_control_main-Exits :
      (w : os.World) → Returns (motor_control_main {F = F} w) (Exits F laws (laws.opened w))
  unfolding motor_control_main
  motor_control_main-Exits w =
      run_main-Exits F laws motor_control_config control_motors w
        (control_motors-Ends F laws never (laws.opened w))
