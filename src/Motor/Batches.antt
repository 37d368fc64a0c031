-- ===== src/Motor/Batches.antt =====
-- `set_all_modes`, `set_all_positions` and `set_all_forces` of src/motor_controller.cpp.
use joyson_glove_sdk.Prelude.{
  ℕ, ◌≡◌, refl, sym, ap, ◌∙◌, Bool, true, false, not, ◌&&◌, List, [], ◌∷◌, if◌then◌else◌,
}
use joyson_glove_sdk.Prelude.Monad.{ok}
use joyson_glove_sdk.Prelude.State.{State, pure, ◌>>=◌, >>=-congr, >>=-assoc, collect}
use joyson_glove_sdk.Udp.Os.{Os}
use joyson_glove_sdk.Device.{Device}
use joyson_glove_sdk.Motor.{
  MotorController, set_motor_mode, set_motor_position, set_motor_force, set_modes_from,
  set_all_modes, set_positions_from, set_all_positions, set_forces_from, set_all_forces,
}

abbrev pub all_true : List Bool → Bool
all_true [] = true
all_true (b ∷ bs) = b && all_true bs

module _ {S : Type 0} where
  -- Every attempt, and whether all of them succeed.
  abbrev pub attempt_all : List (State S Bool) → State S Bool
  attempt_all ms = collect ms >>= λ rs. pure (all_true rs)

  -- The loops of the source, over the list of their bodies.
  abbrev loop : List (State S Bool) → Bool → State S Bool
  loop [] success = pure success
  loop (m ∷ ms) success = m >>= λ done. loop ms (if not done then false else success)

  loop-collect :
      (ms : List (State S Bool)) (success : Bool) (s : S)
      → loop ms success s ≡ (collect ms >>= λ rs. pure (success && all_true rs)) s
  loop-collect [] true s = refl
  loop-collect [] false s = refl
  loop-collect (m ∷ ms) success s =
      >>=-congr m _
        (λ a. (collect ms >>= λ rest. pure (a ∷ rest)) >>= λ rs. pure (success && all_true rs)) s
        (λ done t.
          loop-collect ms (if not done then false else success) t
          ∙ >>=-congr (collect ms) _ (λ rest. pure (success && (done && all_true rest))) t
              (λ rest u. ap (λ b. ok (b, u)) (both done success (all_true rest)))
          ∙ sym (
              >>=-assoc (collect ms) (λ rest. pure (done ∷ rest))
                (λ rs. pure (success && all_true rs)) t))
      ∙ sym (
          >>=-assoc m (λ a. collect ms >>= λ rest. pure (a ∷ rest))
            (λ rs. pure (success && all_true rs)) s)
    where
      both : (d s r : Bool) → ((if not d then false else s) && r) ≡ (s && (d && r))
      both true true r = refl
      both true false r = refl
      both false true r = refl
      both false false r = refl

module _ {os : Os} where
  -- The six motors, in the order of their ids.
  abbrev pub six_motors :
      (ℕ → ℕ → State (Device os MotorController) Bool)
      → (a b c d e f : ℕ) → List (State (Device os MotorController) Bool)
  six_motors set a b c d e f = set 1 a ∷ set 2 b ∷ set 3 c ∷ set 4 d ∷ set 5 e ∷ set 6 f ∷ []

  -- The three methods on all motors make all six attempts, in the order of the ids and whatever
  -- fails, and return whether all of them succeeded.
  pub set_all-attempt_all :
      (a b c d e f : ℕ) (s : Device os MotorController)
      → (set_all_modes a s ≡ attempt_all (six_motors set_motor_mode a a a a a a) s)
        × (set_all_positions (a ∷ b ∷ c ∷ d ∷ e ∷ f ∷ []) s
            ≡ attempt_all (six_motors set_motor_position a b c d e f) s)
        × (set_all_forces (a ∷ b ∷ c ∷ d ∷ e ∷ f ∷ []) s
            ≡ attempt_all (six_motors set_motor_force a b c d e f) s)
  unfolding set_all_modes set_modes_from set_all_positions set_positions_from set_all_forces
      set_forces_from
  set_all-attempt_all a b c d e f s = (
    loop-collect (six_motors set_motor_mode a a a a a a) true s,
    loop-collect (six_motors set_motor_position a b c d e f) true s,
    loop-collect (six_motors set_motor_force a b c d e f) true s,
  )
