-- ===== src/Motor/Settings.antt =====
-- The setters of `MotorController`, src/motor_controller.cpp, on every branch of their tests.
use joyson_glove_sdk.Prelude.{
  ℕ, ◌≤◌, ◌<◌, ◌^◌, ◌≡◌, refl, ap, ◌∙◌, arith, Bool, true, false, not, is_some, if◌then◌else◌,
}
use joyson_glove_sdk.Prelude.Monad.{Checked, ok}
use joyson_glove_sdk.Prelude.State.{State, pure, ◌>>=◌}
use joyson_glove_sdk.Protocol.Packet.{Packet, serialize}
use joyson_glove_sdk.Protocol.Codec.Requests.{Request, IsTyped, encode, wire, encode-Sends}
use joyson_glove_sdk.Udp.Os.{Os}
use joyson_glove_sdk.Udp.Client.{send_and_receive}
use joyson_glove_sdk.Device.{Device, on_link, ask, order}
use joyson_glove_sdk.Motor.{
  MotorController, is_valid_motor_id, is_valid_mode, is_valid_position, is_valid_force,
  set_motor_mode, set_motor_position, set_motor_force, set_motor_speed,
}

-- A call of a setter.
pub data Setting : Type 0 where
  mode position force : ℕ → ℕ → Setting
  speed : ℕ → ℕ → ℕ → Setting

abbrev pub request : Setting → Request
request (mode id m) = Request.set_motor_mode id m
request (position id p) = Request.set_motor_position id p
request (force id f) = Request.set_motor_force id f
request (speed id s p) = Request.set_motor_speed id s p

-- The modes that docs/PROTOCOL.md lists in its sections 2.4 and 3.2 (the table in 2.5 stops at 3), the
-- forces and positions in the ranges of 2.5, and any `uint16_t` as a speed.
abbrev pub IsAllowed : Setting → Type 0
IsAllowed (mode id m) = (1 ≤ id) × (id ≤ 6) × (m ≤ 5)
IsAllowed (position id p) = (1 ≤ id) × (id ≤ 6) × (p ≤ 2000)
IsAllowed (force id f) = (1 ≤ id) × (id ≤ 6) × (f ≤ 4095)
IsAllowed (speed id s p) = (1 ≤ id) × (id ≤ 6) × (s < 2 ^ 16) × (p ≤ 2000)

-- A speed is a `uint16_t`.
abbrev pub IsInt : Setting → Type 0
IsInt (speed id s p) = s < 2 ^ 16
IsInt _ = Unit

IsAllowed-IsTyped : (s : Setting) → IsAllowed s → IsTyped (request s)
IsAllowed-IsTyped (mode id m) h = (omega (arith, h.1), omega (arith, h.2))
IsAllowed-IsTyped (position id p) h = (omega (arith, h.1), omega (arith, h.2))
IsAllowed-IsTyped (force id f) h = (omega (arith, h.1), omega (arith, h.2))
IsAllowed-IsTyped (speed id s p) h = (omega (arith, h.1), h.2, omega (arith, h.3))

module _ {os : Os} where
  abbrev pub set : Setting → State (Device os MotorController) Bool
  set (mode id m) = set_motor_mode id m
  set (position id p) = set_motor_position id p
  set (force id f) = set_motor_force id f
  set (speed id s p) = set_motor_speed id s p

  -- What a setter with allowed arguments does with its packet.
  abbrev pub exchanged : Packet → State (Device os MotorController) Bool
  exchanged p = on_link (send_and_receive p) >>= λ response. pure (is_some response)

  order-exchanged :
      (s : Setting) (d : Device os MotorController) (p : Packet)
      → encode (request s) ≡ ok p
      → order (encode (request s)) d ≡ exchanged p d
  unfolding order ask
  order-exchanged s d p e = ap (λ r. order r d) e

  -- The tests in front of a request.
  unfoldable guarded : Bool → Bool → Checked Packet → State (Device os MotorController) Bool
  guarded a b r = if not a then pure false else if not b then pure false else order r

  guarded-order :
      (a b : Bool) (r : Checked Packet) (d : Device os MotorController)
      → a ≡ true
      → b ≡ true
      → guarded a b r d ≡ order r d
  unfolding guarded
  guarded-order true true r d h k = refl
  guarded-order true false r d h k = cc
  guarded-order false b r d h k = cc

  guarded-false :
      (a b : Bool) (r : Checked Packet) (d : Device os MotorController)
      → ¬ ((a ≡ true) × (b ≡ true))
      → guarded a b r d ≡ ok (false, d)
  unfolding guarded
  guarded-false true true r d h = absurd (h (refl, refl))
  guarded-false true false r d h = refl
  guarded-false false b r d h = refl

  set-order :
      (s : Setting) (d : Device os MotorController)
      → IsAllowed s
      → set s d ≡ order (encode (request s)) d
  unfolding set_motor_mode set_motor_position set_motor_force set_motor_speed is_valid_motor_id
      is_valid_mode is_valid_position is_valid_force encode guarded
  set-order (mode id m) d h =
      guarded-order (is_valid_motor_id id) (is_valid_mode m) (encode (request (mode id m))) d
        (ground (arith, h.0, h.1)) (ground (arith, h.2))
  set-order (position id p) d h =
      guarded-order (is_valid_motor_id id) (is_valid_position p) (encode (request (position id p)))
        d (ground (arith, h.0, h.1)) (ground (arith, h.2))
  set-order (force id f) d h =
      guarded-order (is_valid_motor_id id) (is_valid_force f) (encode (request (force id f))) d
        (ground (arith, h.0, h.1)) (ground (arith, h.2))
  set-order (speed id s p) d h =
      guarded-order (is_valid_motor_id id) (is_valid_position p) (encode (request (speed id s p))) d
        (ground (arith, h.0, h.1)) (ground (arith, h.3))

  -- A setter with a motor from 1 to 6 and a mode up to 5, a position up to 2000, a force up to 4095, or
  -- a speed of 16 bits and a position up to 2000, puts the bytes that the sections 3.2 to 3.5 of
  -- docs/PROTOCOL.md tabulate for its request into one exchange, and returns whether a packet came back.
  pub set-exchanged :
      (s : Setting) (d : Device os MotorController)
      → IsAllowed s
      → (p : Packet) × (serialize p ≡ wire (request s)) × (set s d ≡ exchanged p d)
  set-exchanged s d h =
      let (p, e, bytes, back) = encode-Sends (request s) (IsAllowed-IsTyped s h) in
      (p, bytes, set-order s d h ∙ order-exchanged s d p e)

  -- A setter with a motor out of 1 to 6, a mode above 5, a position above 2000 or a force above 4095
  -- returns `false` and does nothing: nothing is sent, and the controller and the client stay as they
  -- are. A speed is any `uint16_t`.
  pub set-rejects :
      (s : Setting) (d : Device os MotorController)
      → IsInt s
      → ¬ (IsAllowed s)
      → set s d ≡ ok (false, d)
  unfolding set_motor_mode set_motor_position set_motor_force set_motor_speed is_valid_motor_id
      is_valid_mode is_valid_position is_valid_force encode guarded
  set-rejects (mode id m) d t h =
      guarded-false (is_valid_motor_id id) (is_valid_mode m) (encode (request (mode id m))) d
        (λ e. h (ground (arith, e.0), ground (arith, e.0), ground (arith, e.1)))
  set-rejects (position id p) d t h =
      guarded-false (is_valid_motor_id id) (is_valid_position p) (encode (request (position id p)))
        d (λ e. h (ground (arith, e.0), ground (arith, e.0), ground (arith, e.1)))
  set-rejects (force id f) d t h =
      guarded-false (is_valid_motor_id id) (is_valid_force f) (encode (request (force id f))) d
        (λ e. h (ground (arith, e.0), ground (arith, e.0), ground (arith, e.1)))
  set-rejects (speed id s p) d t h =
      guarded-false (is_valid_motor_id id) (is_valid_position p) (encode (request (speed id s p))) d
        (λ e. h (ground (arith, e.0), ground (arith, e.0), t, ground (arith, e.1)))
