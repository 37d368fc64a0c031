-- ===== src/Motor/Polls.antt =====
-- The motors that an update of `MotorController`, src/motor_controller.cpp, asks one after the other.
use joyson_glove_sdk.Prelude.{
  ℕ, zero, suc, ◌+◌, ◌-◌, ◌≤◌, [], ◌∷◌, length, if◌then◌else◌, subst, ◌≡◌, refl, sym, ◌∙◌, arith,
  Bool, true, false, Option, none, some, List, length-set, set,
}
use joyson_glove_sdk.Prelude.Monad.{ok}
use joyson_glove_sdk.Prelude.State.{
  Returns, Returns->>=, Returns-self, Returns-mono, Returns-on_option,
}
use joyson_glove_sdk.Protocol.Packet.{Packet}
use joyson_glove_sdk.Protocol.Parse.{MotorStatus}
use joyson_glove_sdk.Udp.Os.{Os}
use joyson_glove_sdk.Udp.Client.{Link}
use joyson_glove_sdk.Device.{Device}
use joyson_glove_sdk.Device.Keeps.{IsStable, IsSound}
use joyson_glove_sdk.Motor.{
  MotorController, MotorControllerConfig, get_motor_status, set_cached, update_from,
}
use joyson_glove_sdk.Protocol.Parse.Motor.{IsCut}
use joyson_glove_sdk.Motor.Answers.{get_motor_status-IsSound}
use joyson_glove_sdk.Motor.Slots.{set_cached_lem}
use joyson_glove_sdk.Motor.Keeps.{IsController}

-- Some motor answered.
abbrev pub some_answered : List (Option MotorStatus) → Bool
some_answered [] = false
some_answered (none ∷ answers) = some_answered answers
some_answered (some _ ∷ answers) = true

module _ {os : Os} where
  -- The device with an answer of a motor in its slot.
  abbrev pub stored : ℕ → Option MotorStatus → Device os MotorController → Device os MotorController
  stored motor_id none d = d
  stored motor_id (some s) d = record d {
    object = record d.object { cached_status = set d.object.cached_status (motor_id - 1) s };
  }

  -- The motors from `motor_id` on are asked for their statuses in order, and each answer is stored
  -- before the next request.
  pub data Polls
      : ℕ
        → Device os MotorController
        → List (Option MotorStatus)
        → Device os MotorController
        → Type 0 where
    over : (motor_id : ℕ) (d : Device os MotorController) → Polls motor_id d [] d
    asked :
        (motor_id : ℕ) (d t u : Device os MotorController) (answer : Option MotorStatus)
        (answers : List (Option MotorStatus))
        → get_motor_status motor_id d ≡ ok (answer, t)
        → Polls (motor_id + 1) (stored motor_id answer t) answers u
        → Polls motor_id d (answer ∷ answers) u

module _ {os : Os} {P : Link os → Type 0} {R : Packet → Type 0} (stable : IsStable P R)
    (whole : (p : Packet) → R p → ¬ (IsCut p)) (config : MotorControllerConfig) where
  set_cached-stored :
      (motor_id : ℕ) (s : MotorStatus) (d : Device os MotorController)
      → 1 ≤ motor_id
      → motor_id ≤ 6
      → IsSound P (IsController config) d
      → Returns
          (set_cached motor_id s d)
          (λ _ t. IsSound P (IsController config) t × (t ≡ stored motor_id (some s) d))
  set_cached-stored motor_id s d low high h =
      Returns-mono (set_cached motor_id s d) _ _
        (set_cached_lem motor_id s d (omega (arith, low, high, h.object.slots)))
        (λ _ t e. (
          subst (λ t. IsSound P (IsController config) t) (sym e)
              (record {
                link = h.link;
                thread = h.thread;
                object = record {
                  same = h.object.same;
                  slots = length-set d.object.cached_status (motor_id - 1) s ∙ h.object.slots;
                };
              }),
          e,
        ))

  -- The motors that were asked, what they answered, and what follows of the result.
  abbrev pub IsPolled :
      ℕ → ℕ → Bool → Device os MotorController → Bool → Device os MotorController → Type 0
  IsPolled motor_id rounds any_success d done t =
      IsSound P (IsController config) t
      × (answers : List (Option MotorStatus)) × (length answers ≡ rounds)
      × Polls motor_id d answers t
      × (done ≡ (if any_success then true else some_answered answers))
      × (done ≡ false → t.object ≡ d.object)

  IsPolled-none :
      (motor_id rounds : ℕ) (any_success done : Bool) (d t u : Device os MotorController)
      → get_motor_status motor_id d ≡ ok (none, t)
      → t.object ≡ d.object
      → IsPolled (motor_id + 1) rounds any_success t done u
      → IsPolled motor_id (suc rounds) any_success d done u
  IsPolled-none motor_id rounds any_success done d t u e same (sound, answers, len, polls, r, k) = (
    sound,
    none ∷ answers,
    omega (arith, len),
    asked motor_id d t u none answers e polls,
    r,
    λ f. k f ∙ same,
  )

  IsPolled-some :
      (motor_id rounds : ℕ) (any_success done : Bool) (s : MotorStatus)
      (d t v u : Device os MotorController)
      → get_motor_status motor_id d ≡ ok (some s, t)
      → v ≡ stored motor_id (some s) t
      → IsPolled (motor_id + 1) rounds true v done u
      → IsPolled motor_id (suc rounds) any_success d done u
  IsPolled-some motor_id rounds any_success done s d t v u e f (sound, answers, len, polls, r, k) =
      (
        sound,
        some s ∷ answers,
        omega (arith, len),
        asked motor_id d t u (some s) answers e
            (subst (λ v. Polls (motor_id + 1) v answers u) f polls),
        r ∙ either any_success,
        λ g. absurd (true_ne (sym r ∙ g)),
      )
    where
      either : (b : Bool) → true ≡ (if b then true else true)
      either true = refl
      either false = refl

      true_ne : ¬ (true ≡ false)
      true_ne e = cc

  pub update_from-IsPolled :
      (motor_id rounds : ℕ) (any_success : Bool) (d : Device os MotorController)
      → 1 ≤ motor_id
      → motor_id + rounds ≤ 7
      → IsSound P (IsController config) d
      → Returns (update_from motor_id rounds any_success d) (IsPolled motor_id rounds any_success d)
  unfolding update_from
  update_from-IsPolled motor_id zero any_success d low high h =
      (h, [], refl, over motor_id d, either any_success, λ e. refl)
    where
      either : (b : Bool) → b ≡ (if b then true else false)
      either true = refl
      either false = refl
  update_from-IsPolled motor_id (suc rounds) any_success d low high h =
      Returns->>= (get_motor_status motor_id) _ _ _ d
        (Returns-self (get_motor_status motor_id d) _ (
          get_motor_status-IsSound stable whole (λ c. c ≡ d.object) motor_id d
            (record { link = h.link; object = refl; thread = h.thread })))
        (λ answer t k.
          let sound : IsSound P (IsController config) t = record {
            link = (k.0).link;
            object = subst (IsController config) (sym ((k.0).object)) h.object;
            thread = (k.0).thread;
          } in
          Returns-on_option (update_from (motor_id + 1) rounds any_success) _ answer
            (λ answer. get_motor_status motor_id d ≡ ok (answer, t)) _ t (k.1)
            (λ e.
              Returns-mono (update_from (motor_id + 1) rounds any_success t) _ _
                (update_from-IsPolled (motor_id + 1) rounds any_success t (omega arith)
                  (omega arith) sound)
                (λ done u m.
                  IsPolled-none motor_id rounds any_success done d t u e ((k.0).object) m))
            (λ s e.
              Returns->>= (set_cached motor_id s) _ _ _ t
                (set_cached-stored motor_id s t low (omega arith) sound)
                (λ _ v n.
                  Returns-mono (update_from (motor_id + 1) rounds true v) _ _
                    (update_from-IsPolled (motor_id + 1) rounds true v (omega arith) (omega arith)
                      (n.0))
                    (λ done u m.
                      IsPolled-some motor_id rounds any_success done s d t v u e (n.1) m))))
