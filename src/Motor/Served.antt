-- ===== src/Motor/Served.antt =====
-- `MotorController::initialize`, src/motor_controller.cpp, with a board that answers every request.
use joyson_glove_sdk.Prelude.{
  ℕ, zero, suc, ◌+◌, ◌%◌, ◌^◌, ◌≤◌, ◌≡◌, refl, sym, ap, ◌∙◌, subst, arith, Bool, true, false, not,
  [], replicate, All-replicate, if◌then◌else◌,
}
use joyson_glove_sdk.Prelude.Float.{Float}
use joyson_glove_sdk.Prelude.State.{
  State, pure, lift, ◌>>=◌, Returns, Returns->>=, Returns-if, Returns-mono, Returns-lift,
  Returns-on_true,
}
use joyson_glove_sdk.Protocol.Packet.{at}
use joyson_glove_sdk.Protocol.Parse.Words.{at-Yields}
use joyson_glove_sdk.Protocol.Codec.Requests.{encode, set_motor_mode, set_motor_force}
use joyson_glove_sdk.Udp.Os.{Os}
use joyson_glove_sdk.Udp.Board.{Board, Waits}
use joyson_glove_sdk.Device.{Device, returned, finish_initialize}
use joyson_glove_sdk.Device.Replies.{Replies, IsServed, order-IsServed}
use joyson_glove_sdk.Motor.{
  MotorController, is_valid_motor_id, is_valid_mode, is_valid_force, set_modes_from, set_all_modes,
  set_forces_from, set_all_forces, initialize,
}
use joyson_glove_sdk.Motor

module _ {os : Os} {F : Type 0} ⦃fl : Float F⦄ {board : Board os} (replies : Replies F board) where
  -- A call that succeeds and leaves all but the link as it was.
  abbrev Succeeds : State (Device os MotorController) Bool → Type 0
  Succeeds m =
      (d : Device os MotorController)
      → Waits board [] d.link
      → Returns (m d) (λ done t. (done ≡ true) × IsServed replies d t)

  set_motor_mode-Succeeds :
      (motor_id mode : ℕ)
      → 1 ≤ motor_id
      → motor_id ≤ 6
      → mode ≤ 4
      → Succeeds (Motor.set_motor_mode motor_id mode)
  unfolding Motor.set_motor_mode is_valid_motor_id is_valid_mode encode
  set_motor_mode-Succeeds motor_id mode low high few d h =
      Returns-if (not (is_valid_motor_id motor_id)) (pure false) _ _ d
        (λ wrong. absurd (ground (arith, wrong)))
        (λ _.
          Returns-if (not (is_valid_mode mode)) (pure false) _ _ d
            (λ wrong. absurd (ground (arith, wrong)))
            (λ _.
              order-IsServed replies (set_motor_mode motor_id mode) (omega arith, omega arith) d h))

  set_motor_force-Succeeds :
      (motor_id force : ℕ)
      → 1 ≤ motor_id
      → motor_id ≤ 6
      → force ≤ 1000
      → Succeeds (Motor.set_motor_force motor_id force)
  unfolding Motor.set_motor_force is_valid_motor_id is_valid_force encode
  set_motor_force-Succeeds motor_id force low high few d h =
      Returns-if (not (is_valid_motor_id motor_id)) (pure false) _ _ d
        (λ wrong. absurd (ground (arith, wrong)))
        (λ _.
          Returns-if (not (is_valid_force force)) (pure false) _ _ d
            (λ wrong. absurd (ground (arith, wrong)))
            (λ _.
              order-IsServed replies (set_motor_force motor_id force) (omega arith, omega arith) d
                h))

  -- A call that succeeds, and a loop that goes on where it did.
  seq-Succeeds :
      (m : State (Device os MotorController) Bool)
      (rest : Bool → State (Device os MotorController) Bool)
      → Succeeds m
      → Succeeds (rest true)
      → Succeeds (m >>= λ done. rest (if not done then false else true))
  seq-Succeeds m rest k l d h = Returns->>= m _ _ _ d (k d h) (λ done t n.
      subst
        (λ b.
          Returns (rest (if not b then false else true) t)
            (λ done u. (done ≡ true) × IsServed replies d u))
        (sym (n.0))
        (Returns-mono (rest true t) _ _ (l t (n.1.0))
          (λ done u o. (o.0, (o.1.0, (o.1.1.0 ∙ n.1.1.0, o.1.1.1 ∙ n.1.1.1))))))

  set_modes_from-Succeeds :
      (mode motor_id rounds : ℕ)
      → mode ≤ 4
      → 1 ≤ motor_id
      → motor_id + rounds ≤ 7
      → Succeeds (set_modes_from mode motor_id rounds true)
  unfolding set_modes_from
  set_modes_from-Succeeds mode motor_id zero few low high = λ d h. (refl, (h, (refl, refl)))
  set_modes_from-Succeeds mode motor_id (suc rounds) few low high =
      seq-Succeeds (Motor.set_motor_mode motor_id mode) (set_modes_from mode (motor_id + 1) rounds)
        (set_motor_mode-Succeeds motor_id mode low (omega arith) few)
        (set_modes_from-Succeeds mode (motor_id + 1) rounds few (omega arith) (omega arith))

  -- All forces are the same.
  set_forces_from-Succeeds :
      (force i rounds : ℕ)
      → force ≤ 1000
      → i + rounds ≤ 6
      → Succeeds (set_forces_from (replicate 6 force) i rounds true)
  unfolding set_forces_from
  set_forces_from-Succeeds force i zero few high = λ d h. (refl, (h, (refl, refl)))
  set_forces_from-Succeeds force i (suc rounds) few high = λ d h.
      Returns->>= (lift (at (replicate 6 force) i)) _ (λ f t. (f ≡ force) × (t ≡ d)) _ d
        (Returns-lift (at (replicate 6 force) i) (λ f. f ≡ force) _ d
          (at-Yields (replicate 6 force) (λ f. f ≡ force) i
            (All-replicate (λ f. f ≡ force) 6 force refl) (omega arith))
          (λ f e. (e, refl)))
        (λ f t k.
          subst
            (λ t.
              Returns
                ((Motor.set_motor_force ((i + 1) % 2 ^ 8) f >>= λ done.
                    set_forces_from (replicate 6 force) (i + 1) rounds
                      (if not done then false else true))
                  t)
                (λ done u. (done ≡ true) × IsServed replies d u))
            (sym (k.1))
            (seq-Succeeds (Motor.set_motor_force ((i + 1) % 2 ^ 8) f)
              (set_forces_from (replicate 6 force) (i + 1) rounds)
              (set_motor_force-Succeeds ((i + 1) % 2 ^ 8) f (omega arith) (omega arith)
                (omega (arith, k.0)))
              (set_forces_from-Succeeds force (i + 1) rounds few (omega arith)) d h))

  -- A controller without a thread of its own is initialized.
  pub initialize-IsServed :
      (d : Device os MotorController)
      → d.object.config.auto_start_thread ≡ false
      → Waits board [] d.link
      → Returns (initialize d) (λ r t.
        (r ≡ returned true)
        × Waits board [] t.link
        × (t.object.config.auto_start_thread ≡ false)
        × (t.thread ≡ d.thread))
  unfolding initialize set_all_modes set_all_forces finish_initialize
  initialize-IsServed d manual h =
      Returns-on_true (set_all_modes 3) (pure (returned false)) _ (IsServed replies d) _ d
        (set_modes_from-Succeeds 3 1 6 (omega arith) (omega arith) (omega arith) d h)
        (λ t k.
          Returns-on_true (set_all_forces (replicate 6 10)) (pure (returned false)) _
            (IsServed replies d) _ t
            (Returns-mono (set_all_forces (replicate 6 10) t) _ _
              (set_forces_from-Succeeds 10 0 6 (omega arith) (omega arith) t (k.0))
              (λ done u o. (o.0, (o.1.0, (o.1.1.0 ∙ k.1.0, o.1.1.1 ∙ k.1.1)))))
            (λ u o.
              Returns-if (not u.object.config.auto_start_thread) (pure (returned true)) _ _ u
                (λ _. (refl, o.0, ap (λ c. c.config.auto_start_thread) (o.1.0) ∙ manual, o.1.1))
                (λ e.
                  absurd (different (ap (λ c. c.config.auto_start_thread) (o.1.0) ∙ manual) e))))
    where
      different : {b : Bool} → b ≡ false → ¬ (not b ≡ false)
      different e f = cc
