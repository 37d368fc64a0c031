-- ===== src/Motor/Keeps.antt =====
-- The methods of `MotorController`, src/motor_controller.cpp, against an invariant of the link: they
-- return, and keep it, the thread and the size of the cache.
use joyson_glove_sdk.Prelude.{
  ℕ, zero, suc, ◌+◌, ◌%◌, ◌^◌, ◌≤◌, ◌<◌, ◌≡◌, refl, arith, Bool, true, false, not, List, length,
  if◌then◌else◌,
}
use joyson_glove_sdk.Prelude.Monad.{Checked, Yields, Total-Yields, Yields-mono}
use joyson_glove_sdk.Prelude.State.{State, pure, lift, Returns, Returns->>=, Returns-lift}
use joyson_glove_sdk.Protocol.Packet.{Packet, at}
use joyson_glove_sdk.Protocol.Codec.Requests.{
  Request, encode, IsTyped, encode-Sends, set_motor_mode, set_motor_position, set_motor_force,
  set_motor_speed,
}
use joyson_glove_sdk.Protocol.Parse.Words.{at-Total}
use joyson_glove_sdk.Udp.Os.{Os}
use joyson_glove_sdk.Udp.Client.{Link}
use joyson_glove_sdk.Device.{Device, order}
use joyson_glove_sdk.Device.Keeps.{IsStable, IsSound, order-IsSound}
use joyson_glove_sdk.Motor.{
  MotorController, MotorControllerConfig, is_valid_motor_id, is_valid_mode, is_valid_position,
  is_valid_force, set_modes_from, set_all_modes, set_positions_from, set_all_positions,
  set_forces_from, set_all_forces, initialize, get_motor_status, set_cached, update_from,
  update_once,
}
use joyson_glove_sdk.Motor

pub encode-Yields : (r : Request) → IsTyped r → Yields (encode r) (λ _. Unit {0})
encode-Yields r t =
    Yields-mono (encode r) _ _
      (Total-Yields (encode r) ((encode-Sends r t).0, (encode-Sends r t).1)) (λ _ _. tt)

-- The configuration stays, and the cache has a slot for every motor.
pub record IsController (config : MotorControllerConfig) (c : MotorController) : Type 0 where
  pub same : c.config ≡ config
  pub slots : length c.cached_status ≡ 6

module _ {os : Os} {P : Link os → Type 0} {R : Packet → Type 0} (stable : IsStable P R)
    (config : MotorControllerConfig) where
  abbrev pub Keeps : {A : Type 0} → State (Device os MotorController) A → Type 0
  Keeps m =
      (d : Device os MotorController)
      → IsSound P (IsController config) d
      → Returns (m d) (λ _ t. IsSound P (IsController config) t)

  -- A setter: two tests in front of a request.
  guarded-Keeps :
      (a b : Bool) (request : Checked Packet)
      → (a ≡ true → b ≡ true → Yields request (λ _. Unit {0}))
      → Keeps (if not a then pure false else if not b then pure false else order request)
  guarded-Keeps true true request y d h =
      order-IsSound (IsController config) stable request d (y refl refl) h
  guarded-Keeps true false request y d h = h
  guarded-Keeps false b request y d h = h

  pub set_motor_mode-Keeps : (motor_id mode : ℕ) → Keeps (Motor.set_motor_mode motor_id mode)
  unfolding Motor.set_motor_mode is_valid_motor_id is_valid_mode encode
  set_motor_mode-Keeps motor_id mode =
      guarded-Keeps (is_valid_motor_id motor_id) (is_valid_mode mode) _
        (λ i m. encode-Yields (set_motor_mode motor_id mode) (ground (arith, i), ground (arith, m)))

  pub set_motor_position-Keeps :
      (motor_id position : ℕ) → Keeps (Motor.set_motor_position motor_id position)
  unfolding Motor.set_motor_position is_valid_motor_id is_valid_position encode
  set_motor_position-Keeps motor_id position =
      guarded-Keeps (is_valid_motor_id motor_id) (is_valid_position position) _ (λ i m.
        encode-Yields (set_motor_position motor_id position) (ground (arith, i), ground (arith, m)))

  pub set_motor_force-Keeps : (motor_id force : ℕ) → Keeps (Motor.set_motor_force motor_id force)
  unfolding Motor.set_motor_force is_valid_motor_id is_valid_force encode
  set_motor_force-Keeps motor_id force =
      guarded-Keeps (is_valid_motor_id motor_id) (is_valid_force force) _ (λ i m.
        encode-Yields (set_motor_force motor_id force) (ground (arith, i), ground (arith, m)))

  pub set_motor_speed-Keeps :
      (motor_id speed position : ℕ)
      → speed < 2 ^ 16
      → Keeps (Motor.set_motor_speed motor_id speed position)
  unfolding Motor.set_motor_speed is_valid_motor_id is_valid_position encode
  set_motor_speed-Keeps motor_id speed position typed =
      guarded-Keeps (is_valid_motor_id motor_id) (is_valid_position position) _ (λ i m.
        encode-Yields (set_motor_speed motor_id speed position)
          (ground (arith, i), typed, ground (arith, m)))

  set_modes_from-Keeps :
      (mode motor_id rounds : ℕ) (success : Bool)
      → Keeps (set_modes_from mode motor_id rounds success)
  unfolding set_modes_from
  set_modes_from-Keeps mode motor_id zero success d h = h
  set_modes_from-Keeps mode motor_id (suc rounds) success d h =
      Returns->>= (Motor.set_motor_mode motor_id mode) _ _ _ d
        (set_motor_mode-Keeps motor_id mode d h)
        (λ done t k.
          set_modes_from-Keeps mode (motor_id + 1) rounds (if not done then false else success) t k)

  pub set_all_modes-Keeps : (mode : ℕ) → Keeps (set_all_modes mode)
  unfolding set_all_modes
  set_all_modes-Keeps mode = set_modes_from-Keeps mode 1 6 true

  -- The loops of `set_all_positions` and `set_all_forces`, over an array that is long enough.
  set_positions_from-Keeps :
      (positions : List ℕ) (i rounds : ℕ) (success : Bool)
      → i + rounds ≤ length positions
      → Keeps (set_positions_from positions i rounds success)
  unfolding set_positions_from
  set_positions_from-Keeps positions i zero success fits d h = h
  set_positions_from-Keeps positions i (suc rounds) success fits d h =
      Returns->>= (lift (at positions i)) _ (λ _ t. IsSound P (IsController config) t) _ d
        (Returns-lift (at positions i) _ _ d
          (Total-Yields (at positions i) (at-Total positions i (omega arith))) (λ _ _. h))
        (λ position t k.
          Returns->>= (Motor.set_motor_position ((i + 1) % 2 ^ 8) position) _ _ _ t
            (set_motor_position-Keeps ((i + 1) % 2 ^ 8) position t k)
            (λ done u k.
              set_positions_from-Keeps positions (i + 1) rounds
                (if not done then false else success) (omega arith) u k))

  pub set_all_positions-Keeps :
      (positions : List ℕ) → length positions ≡ 6 → Keeps (set_all_positions positions)
  unfolding set_all_positions
  set_all_positions-Keeps positions e = set_positions_from-Keeps positions 0 6 true (omega arith)

  set_forces_from-Keeps :
      (forces : List ℕ) (i rounds : ℕ) (success : Bool)
      → i + rounds ≤ length forces
      → Keeps (set_forces_from forces i rounds success)
  unfolding set_forces_from
  set_forces_from-Keeps forces i zero success fits d h = h
  set_forces_from-Keeps forces i (suc rounds) success fits d h =
      Returns->>= (lift (at forces i)) _ (λ _ t. IsSound P (IsController config) t) _ d
        (Returns-lift (at forces i) _ _ d
          (Total-Yields (at forces i) (at-Total forces i (omega arith))) (λ _ _. h))
        (λ force t k.
          Returns->>= (Motor.set_motor_force ((i + 1) % 2 ^ 8) force) _ _ _ t
            (set_motor_force-Keeps ((i + 1) % 2 ^ 8) force t k)
            (λ done u k.
              set_forces_from-Keeps forces (i + 1) rounds (if not done then false else success)
                (omega arith) u k))

  pub set_all_forces-Keeps : (forces : List ℕ) → length forces ≡ 6 → Keeps (set_all_forces forces)
  unfolding set_all_forces
  set_all_forces-Keeps forces e = set_forces_from-Keeps forces 0 6 true (omega arith)
