-- ===== src/Motor.antt =====
-- `class MotorController`: include/joyson_glove/motor_controller.hpp, src/motor_controller.cpp.
pub mod Keeps
pub mod Updates
pub mod Batches
pub mod Settings
pub mod Reports
pub mod Slots
pub mod Lag
pub mod Polls
pub mod Answers
pub mod Late
pub mod Served
use joyson_glove_sdk.Prelude.{
  ℕ, zero, suc, ◌+◌, ◌-◌, ◌%◌, ◌^◌, get_elem?, Bool, true, false, not, ◌&&◌, Option, none, some,
  List, [], ◌∷◌, set, replicate, leb, if◌then◌else◌,
}
use joyson_glove_sdk.Prelude.Int.{ℤ, pos}
use joyson_glove_sdk.Prelude.Monad.{in_bounds}
use joyson_glove_sdk.Prelude.State.{State, on_option, pure, ◌>>=◌, ◌>>◌, gets, modify, lift}
use joyson_glove_sdk.Protocol.Constants.{
  mode_force, mode_speed_force, num_motors, motor_position_max, motor_force_max,
}
use joyson_glove_sdk.Protocol.Packet.{at}
use joyson_glove_sdk.Protocol.Codec.{
  encode_read_motor_status, encode_set_motor_mode, encode_set_motor_position,
  encode_set_motor_force, encode_set_motor_speed,
}
use joyson_glove_sdk.Protocol.Parse.{MotorStatus, parse_motor_status}
use joyson_glove_sdk.Udp.Os.{Os}
use joyson_glove_sdk.Udp.Client.{Link, sys}
use joyson_glove_sdk.Device.Loop.{repeat_checked_updates}
use joyson_glove_sdk.Device.{
  Device, Outcome, returned, threw, on_object, on_link, milliseconds_since, order, fetch,
  finish_initialize, start_thread, stop_thread,
}

pub record MotorControllerConfig : Type 0 where
  pub auto_start_thread : Bool
  pub update_interval : ℕ

-- The thread is in the `Device`; `cached_status` is a `std::array` of `NUM_MOTORS`.
pub record MotorController : Type 0 where
  pub config : MotorControllerConfig
  pub cached_status : List MotorStatus

-- `MotorStatus{}` with an id and a time.
unfoldable pub initial_status : ℕ → ℕ → MotorStatus
initial_status motor_id timestamp = record {
  motor_id = motor_id;
  target_position = 0;
  actual_position = 0;
  actual_current = 0;
  force_value = 0;
  force_raw = 0;
  temperature = 0;
  fault_code = 0;
  timestamp = timestamp;
}

unfoldable pub is_valid_motor_id : ℕ → Bool
is_valid_motor_id motor_id = leb 1 motor_id && leb motor_id num_motors

unfoldable pub is_valid_mode : ℕ → Bool
is_valid_mode mode = leb mode mode_speed_force

unfoldable pub is_valid_force : ℕ → Bool
is_valid_force force = leb force motor_force_max

unfoldable pub is_valid_position : ℕ → Bool
is_valid_position position = leb position motor_position_max

module _ {os : Os} where
  -- The loop of the constructor: `rounds` more motors from index `i` on.
  unfoldable pub initial_statuses : ℕ → ℕ → State (Link os) (List MotorStatus)
  initial_statuses i zero = pure []
  initial_statuses i (suc rounds) = do
    now ← sys os.steady_now
    rest ← initial_statuses (i + 1) rounds
    pure (initial_status ((i + 1) % 2 ^ 8) now ∷ rest)

  -- The constructor.
  unfoldable pub motor_controller : MotorControllerConfig → State (Link os) MotorController
  motor_controller config = do
    statuses ← initial_statuses 0 num_motors
    pure (record { config = config; cached_status = statuses })

  unfoldable pub set_motor_mode : ℕ → ℕ → State (Device os MotorController) Bool
  set_motor_mode motor_id mode =
      if not (is_valid_motor_id motor_id)
      then pure false
      else if not (is_valid_mode mode)
      then pure false
      else order (encode_set_motor_mode motor_id mode)

  unfoldable pub set_motor_position : ℕ → ℕ → State (Device os MotorController) Bool
  set_motor_position motor_id position =
      if not (is_valid_motor_id motor_id)
      then pure false
      else if not (is_valid_position position)
      then pure false
      else order (encode_set_motor_position motor_id position)

  unfoldable pub set_motor_force : ℕ → ℕ → State (Device os MotorController) Bool
  set_motor_force motor_id force =
      if not (is_valid_motor_id motor_id)
      then pure false
      else if not (is_valid_force force)
      then pure false
      else order (encode_set_motor_force motor_id force)

  unfoldable pub set_motor_speed : ℕ → ℕ → ℕ → State (Device os MotorController) Bool
  set_motor_speed motor_id speed target_position =
      if not (is_valid_motor_id motor_id)
      then pure false
      else if not (is_valid_position target_position)
      then pure false
      else order (encode_set_motor_speed motor_id speed target_position)

  -- The loop of `set_all_modes`: `rounds` more motors from `motor_id` on.
  unfoldable pub set_modes_from : ℕ → ℕ → ℕ → Bool → State (Device os MotorController) Bool
  set_modes_from mode motor_id zero success = pure success
  set_modes_from mode motor_id (suc rounds) success = do
    done ← set_motor_mode motor_id mode
    set_modes_from mode (motor_id + 1) rounds (if not done then false else success)

  unfoldable pub set_all_modes : ℕ → State (Device os MotorController) Bool
  set_all_modes mode = set_modes_from mode 1 num_motors true

  -- The loop of `set_all_positions`: `rounds` more motors from index `i` on.
  unfoldable pub set_positions_from : List ℕ → ℕ → ℕ → Bool → State (Device os MotorController) Bool
  set_positions_from positions i zero success = pure success
  set_positions_from positions i (suc rounds) success = do
    position ← lift (at positions i)
    done ← set_motor_position ((i + 1) % 2 ^ 8) position
    set_positions_from positions (i + 1) rounds (if not done then false else success)

  -- `positions` is a `std::array` of `NUM_MOTORS`.
  unfoldable pub set_all_positions : List ℕ → State (Device os MotorController) Bool
  set_all_positions positions = set_positions_from positions 0 num_motors true

  unfoldable pub set_forces_from : List ℕ → ℕ → ℕ → Bool → State (Device os MotorController) Bool
  set_forces_from forces i zero success = pure success
  set_forces_from forces i (suc rounds) success = do
    force ← lift (at forces i)
    done ← set_motor_force ((i + 1) % 2 ^ 8) force
    set_forces_from forces (i + 1) rounds (if not done then false else success)

  -- `forces` is a `std::array` of `NUM_MOTORS`.
  unfoldable pub set_all_forces : List ℕ → State (Device os MotorController) Bool
  set_all_forces forces = set_forces_from forces 0 num_motors true

  unfoldable pub initialize : State (Device os MotorController) (Outcome Bool)
  initialize = do
    modes ← set_all_modes mode_force
    if not modes then pure (returned false) else do
      forces ← set_all_forces (replicate num_motors 10)
      if not forces
          then pure (returned false)
          else do c ← gets (λ d. d.object.config); finish_initialize c.auto_start_thread

  unfoldable pub get_motor_status : ℕ → State (Device os MotorController) (Option MotorStatus)
  get_motor_status motor_id =
      if not (is_valid_motor_id motor_id)
      then pure none
      else fetch (encode_read_motor_status motor_id) parse_motor_status

  -- `cached_status_[motor_id - 1]`
  unfoldable pub cached : ℕ → State (Device os MotorController) MotorStatus
  cached motor_id = do
    statuses ← gets (λ d. d.object.cached_status)
    lift (in_bounds (get_elem? statuses (motor_id - 1)))

  unfoldable pub get_cached_status : ℕ → State (Device os MotorController) (Option MotorStatus)
  get_cached_status motor_id =
      if not (is_valid_motor_id motor_id)
      then pure none
      else do status ← cached motor_id; pure (some status)

  unfoldable pub get_all_cached_status : State (Device os MotorController) (List MotorStatus)
  get_all_cached_status = gets (λ d. d.object.cached_status)

  -- In milliseconds; `milliseconds::max()` for a wrong id.
  unfoldable pub get_status_age : ℕ → State (Device os MotorController) ℤ
  get_status_age motor_id = if not (is_valid_motor_id motor_id) then pure (pos (2 ^ 63 - 1)) else do
    now ← on_link (sys os.steady_now)
    status ← cached motor_id
    pure (milliseconds_since now status.timestamp)

  -- `cached_status_[motor_id - 1] = status`
  unfoldable pub set_cached : ℕ → MotorStatus → State (Device os MotorController) (Unit {0})
  set_cached motor_id status = do
    cached motor_id
    on_object (λ c. record c { cached_status = set c.cached_status (motor_id - 1) status })

  -- The loop of `update_once`: `rounds` more motors from `motor_id` on.
  unfoldable pub update_from : ℕ → ℕ → Bool → State (Device os MotorController) Bool
  update_from motor_id zero any_success = pure any_success
  update_from motor_id (suc rounds) any_success = do
    status ← get_motor_status motor_id
    on_option (update_from (motor_id + 1) rounds any_success)
        (λ s. do set_cached motor_id s; update_from (motor_id + 1) rounds true) status

  unfoldable pub update_once : State (Device os MotorController) Bool
  update_once = update_from 1 num_motors false

  unfoldable pub status_update_loop : List Bool → State (Device os MotorController) ℕ
  status_update_loop loads =
      repeat_checked_updates (λ c. c.config.update_interval) update_once loads 0

  unfoldable pub start_status_update_thread : State (Device os MotorController) (Outcome (Unit {0}))
  start_status_update_thread = start_thread

  unfoldable pub stop_status_update_thread : State (Device os MotorController) (Unit {0})
  stop_status_update_thread = stop_thread

  -- The destructor.
  abbrev pub destroy : State (Device os MotorController) (Unit {0})
  destroy = stop_status_update_thread
