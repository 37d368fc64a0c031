-- ===== src/Motor/Updates.antt =====
-- `initialize` and the updates of `MotorController`, src/motor_controller.cpp,
-- against an invariant of the link: they return, and keep it, the thread and the size of the cache.
use joyson_glove_sdk.Prelude.{
  ◌^◌, ◌<◌, ◌⊎◌, ◌∷◌, ◌++◌, length, inl, inr, subst, ◌≡◌, refl, ap, ◌∙◌, arith, Bool, true, false,
  not, Option, List, replicate,
}
use joyson_glove_sdk.Prelude.Monad.{ok}
use joyson_glove_sdk.Prelude.State.{Returns, Returns->>=, Returns-self, Returns-if, Returns-mono}
use joyson_glove_sdk.Protocol.Packet.{Packet}
use joyson_glove_sdk.Protocol.Parse.{MotorStatus}
use joyson_glove_sdk.Udp.Os.{Os}
use joyson_glove_sdk.Udp.Client.{Link}
use joyson_glove_sdk.Device.{Device, returned, finish_initialize}
use joyson_glove_sdk.Device.Rounds.{checked_rounds, Ran}
use joyson_glove_sdk.Device.Tallies.{repeat_checked_updates-IsTallied}
use joyson_glove_sdk.Device.Keeps.{IsStable, IsSound, finish_initialize-IsSound, Starts}
use joyson_glove_sdk.Motor.{
  MotorController, MotorControllerConfig, set_all_modes, set_all_forces, initialize, update_once,
  status_update_loop,
}
use joyson_glove_sdk.Protocol.Parse.Motor.{IsCut}
use joyson_glove_sdk.Motor.Polls.{some_answered, Polls, update_from-IsPolled}
use joyson_glove_sdk.Motor.Keeps.{IsController, set_all_modes-Keeps, set_all_forces-Keeps}

-- `initialize` failed: the modes were refused, or they were set and the forces were refused.
abbrev pub Refused : {os : Os} → Device os MotorController → Device os MotorController → Type 0
Refused {os} d t =
    (set_all_modes 3 d ≡ ok (false, t))
    ⊎ ((u : Device os MotorController) × (set_all_modes 3 d ≡ ok (true, u))
        × (set_all_forces (replicate 6 10) u ≡ ok (false, t)))

module _ {os : Os} {P : Link os → Type 0} {R : Packet → Type 0} (stable : IsStable P R)
    (config : MotorControllerConfig) where
  pub initialize-Starts :
      (d : Device os MotorController)
      → IsSound P (IsController config) d
      → Returns (initialize d) (λ r t.
        IsSound P (IsController config) t
        × (((r ≡ returned false) × Refused d t) ⊎ Starts config.auto_start_thread r t))
  unfolding initialize
  initialize-Starts d h =
      Returns->>= (set_all_modes 3) _ _ _ d
        (Returns-self (set_all_modes 3 d) _ (set_all_modes-Keeps stable config 3 d h))
        (λ modes t (k, e).
          Returns-if (not modes) _ _ _ t
            (λ n. (k, inl (refl, inl (e ∙ ap (λ b. ok (b, t)) (of_not modes false n)))))
            (λ n.
              Returns->>= (set_all_forces (replicate 6 10)) _ _ _ t
                (Returns-self (set_all_forces (replicate 6 10) t) _
                  (set_all_forces-Keeps stable config (replicate 6 10) refl t k))
                (λ forces u (k, f).
                  Returns-if (not forces) _ _ _ u
                    (λ m. (
                      k,
                      inl (
                        refl,
                        inr (
                          t,
                          e ∙ ap (λ b. ok (b, t)) (of_not modes true n),
                          f ∙ ap (λ b. ok (b, u)) (of_not forces false m),
                        ),
                      ),
                    ))
                    (λ _.
                      Returns-mono (finish_initialize u.object.config.auto_start_thread u) _ _
                        (finish_initialize-IsSound (IsController config) stable
                          u.object.config.auto_start_thread u k)
                        (λ r v s. (
                          s.0,
                          inr (subst (λ c. Starts c.auto_start_thread r v) (k.object.same) (s.1)),
                        ))))))
    where
      of_not : (b c : Bool) → not b ≡ not c → b ≡ c
      of_not true true e = refl
      of_not true false e = cc
      of_not false true e = cc
      of_not false false e = refl

  module _ (whole : (p : Packet) → R p → ¬ (IsCut p)) where
    -- Where the board sends no motor response with a body of 18 bytes, an update returns with a slot for
    -- every motor in the cache. It has asked the motors from 1 to 6 in that order and stored every
    -- status that was read in the slot of the motor that was asked; it returns `true` where one was
    -- read, and where none was it returns `false` and the controller is as it was.
    pub update_once-IsSound :
        (d : Device os MotorController)
        → IsSound P (IsController config) d
        → Returns (update_once d) (λ done t.
          IsSound P (IsController config) t
          × (answers : List (Option MotorStatus)) × (length answers ≡ 6)
          × Polls 1 d answers t
          × (done ≡ some_answered answers)
          × (done ≡ false → t.object ≡ d.object))
    unfolding update_once
    update_once-IsSound d h =
        Returns-mono (update_once d) _ _
          (update_from-IsPolled stable whole config 1 6 false d (omega arith) (omega arith) h)
          (λ done t k. k)

    -- Whatever the loads of the flag return, where they allow fewer than 2^31 rounds and the board sends
    -- no motor response with a body of 18 bytes, the loop of the update thread makes that many rounds
    -- and ends with a slot for every motor in the cache. Its `int` has not overflowed, and has counted
    -- just the failed rounds behind the last one that succeeded; where none succeeded, it has counted
    -- every round and the controller is as it was.
    pub status_update_loop-IsTallied :
        (loads : List Bool) (d : Device os MotorController)
        → checked_rounds loads < 2 ^ 31
        → IsSound P (IsController config) d
        → Returns (status_update_loop loads d) (λ failures t.
          IsSound P (IsController config) t
          × (results : List Bool) × (length results ≡ checked_rounds loads)
          × Ran (λ (c : MotorController). c.config.update_interval) update_once d results t
          × (((results ≡ replicate failures false) × (t.object ≡ d.object))
              ⊎ ((front : List Bool) × (results ≡ front ++ true ∷ replicate failures false))))
    unfolding status_update_loop
    status_update_loop-IsTallied loads d fits h =
        repeat_checked_updates-IsTallied (IsController config) stable
          (λ c. c.config.update_interval) update_once
          (λ d h.
            Returns-mono (update_once d) _ _ (update_once-IsSound d h)
              (λ done t (sound, answers, len, polls, r, same). (sound, same)))
          loads d fits h
