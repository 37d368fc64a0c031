-- ===== src/Motor/Lag.antt =====
-- `update_once` and the loop of the update thread, src/motor_controller.cpp, with a board that answers
-- every request: the statuses that wait in the socket are taken before the answers.
use mathlib.Core.List.{append_assoc, append-nil}
use joyson_glove_sdk.Prelude.{
  ℕ, zero, suc, ◌+◌, ◌-◌, ◌≤◌, ◌≡◌, refl, sym, ap, ◌∙◌, subst, arith, Bool, true, false, Option,
  some, List, [], ◌∷◌, ◌++◌, map, length, take, drop, length-set, length-map, take_all,
}
use joyson_glove_sdk.Prelude.State.{State, ◌>>=◌, Returns, Returns->>=, Returns-mono, on_option}
use joyson_glove_sdk.Protocol.Codec.Requests.{read_motor_status, wire}
use joyson_glove_sdk.Protocol.Parse.{MotorStatus}
use joyson_glove_sdk.Udp.Os.{Os}
use joyson_glove_sdk.Udp.Board.{Board, Waits}
use joyson_glove_sdk.Device.{Device}
use joyson_glove_sdk.Motor.{MotorController, get_motor_status, set_cached, update_from, update_once}
use joyson_glove_sdk.Motor.Reports.{
  timeless, Reports, AllReport, Pending, AllReport-append, Answers, get_motor_status-Waits,
}
use joyson_glove_sdk.Motor.Slots.{timeless_cache, set_cached_lem, prefix_after_set}

-- The statuses of so many motors from `motor_id` on.
abbrev pub statuses_from : (ℕ → MotorStatus) → ℕ → ℕ → List MotorStatus
statuses_from status motor_id zero = []
statuses_from status motor_id (suc rounds) =
    status motor_id ∷ statuses_from status (motor_id + 1) rounds

-- The result of the loop of `update_once` where every round succeeds.
abbrev succeeds : Bool → ℕ → Bool
succeeds any zero = any
succeeds any (suc rounds) = true

succeeds-true : (rounds : ℕ) → succeeds true rounds ≡ true
succeeds-true zero = refl
succeeds-true (suc rounds) = refl

module _ {os : Os} (board : Board os) (status : ℕ → MotorStatus)
    (answers : Answers board status) where
  -- What the loop of `update_once` does to a device, where so many statuses are taken.
  record Takes (motor_id rounds : ℕ) (statuses : List MotorStatus) (d t : Device os MotorController)
      : Type 0 where
    cache :
        timeless_cache t.object
        ≡ take (motor_id - 1) (timeless_cache d.object) ++ take rounds (map timeless statuses)
    slots : length t.object.cached_status ≡ 6
    config : t.object.config ≡ d.object.config
    pending : Pending board (drop rounds statuses) t.link

  abbrev Taken : ℕ → ℕ → Bool → List MotorStatus → Device os MotorController → Type 0
  Taken motor_id rounds any statuses d =
      Returns (update_from motor_id rounds any d)
        (λ done t. (done ≡ succeeds any rounds) × Takes motor_id rounds statuses d t)

  take_report :
      (motor_id rounds : ℕ) (any : Bool) (queue rest : List (List ℕ)) (bytes : List ℕ)
      (s : MotorStatus) (statuses : List MotorStatus) (d : Device os MotorController)
      → 1 ≤ motor_id
      → motor_id ≤ 6
      → queue ++ board.answer (wire (read_motor_status motor_id)) ∷ [] ≡ bytes ∷ rest
      → Reports board bytes s
      → Waits board queue d.link
      → length d.object.cached_status ≡ 6
      → ((t : Device os MotorController)
          → Waits board rest t.link
          → length t.object.cached_status ≡ 6
          → Taken (motor_id + 1) rounds true statuses t)
      → Taken motor_id (suc rounds) any (s ∷ statuses) d
  unfolding update_from
  take_report motor_id rounds any queue rest bytes s statuses d low high e report waits slots
        after =
      Returns->>= (get_motor_status motor_id) _ _ _ d
        (get_motor_status-Waits board status answers motor_id low high queue rest bytes s d e report
          waits)
        (λ value t k.
          subst
            (λ value.
              Returns (stored value t)
                (λ done t. (done ≡ true) × Takes motor_id (suc rounds) (s ∷ statuses) d t))
            (sym (k.0.1)) (store (record s { timestamp = k.0.0 }) t refl (k.1) (k.2.0)))
    where
      stored : Option MotorStatus → State (Device os MotorController) Bool
      stored =
          on_option (update_from (motor_id + 1) rounds any)
            (λ s. set_cached motor_id s >>= λ _. update_from (motor_id + 1) rounds true)

      store :
          (x : MotorStatus) (t : Device os MotorController)
          → timeless x ≡ timeless s
          → Waits board rest t.link
          → t.object ≡ d.object
          → Returns
              (stored (some x) t)
              (λ done t. (done ≡ true) × Takes motor_id (suc rounds) (s ∷ statuses) d t)
      store x t same w o =
          Returns->>= (set_cached motor_id x) _ _ _ t
            (set_cached_lem motor_id x t (omega (arith, slots, ap (λ c. length c.cached_status) o)))
            (λ _ u f.
              Returns-mono (update_from (motor_id + 1) rounds true u) _ _
                (after u (subst (λ u. Waits board rest u.link) (sym f) w) (
                  ap (λ u. length u.object.cached_status) f
                  ∙ length-set t.object.cached_status (motor_id - 1) x
                  ∙ ap (λ c. length c.cached_status) o
                  ∙ slots))
                (λ done v m. (
                  m.0 ∙ succeeds-true rounds,
                  record {
                    cache =
                        m.1.cache
                        ∙ ap (λ c. c ++ take rounds (map timeless statuses))
                            (prefix_after_set motor_id x s d t u low high slots o same f)
                        ∙ append_assoc (take (motor_id - 1) (timeless_cache d.object))
                            (timeless s ∷ []) (take rounds (map timeless statuses));
                    slots = m.1.slots;
                    config = m.1.config ∙ ap (λ u. u.object.config) f ∙ ap (λ c. c.config) o;
                    pending = m.1.pending;
                  },
                )))

  update_from-Taken :
      (motor_id rounds : ℕ) (any : Bool) (queue : List (List ℕ)) (statuses : List MotorStatus)
      (d : Device os MotorController)
      → 1 ≤ motor_id
      → motor_id + rounds ≡ 7
      → AllReport board queue statuses
      → Waits board queue d.link
      → length d.object.cached_status ≡ 6
      → Taken motor_id rounds any (statuses ++ statuses_from status motor_id rounds) d
  unfolding update_from
  update_from-Taken motor_id zero any queue statuses d low sum report waits slots = (
    refl,
    record {
      cache = sym (append-nil (timeless_cache d.object)) ∙ ap (λ c. c ++ []) whole;
      slots = slots;
      config = refl;
      pending = record {
        queue = queue;
        waits = waits;
        report = subst (AllReport board queue) (sym (append-nil statuses)) report;
      };
    },
  )
    where
      whole : timeless_cache d.object ≡ take (motor_id - 1) (timeless_cache d.object)
      whole =
          let all : length (timeless_cache d.object) ≡ motor_id - 1 =
            omega (arith, length-map {0, 0} timeless d.object.cached_status, slots, sum) in
          sym (take_all (timeless_cache d.object)) ∙ ap (λ n. take n (timeless_cache d.object)) all
  update_from-Taken motor_id (suc rounds) any [] [] d low sum report waits slots =
      take_report motor_id rounds any [] [] (board.answer (wire (read_motor_status motor_id)))
        (status motor_id) (statuses_from status (motor_id + 1) rounds) d low (omega (arith, sum))
        refl (answers motor_id low (omega (arith, sum))) waits slots
        (λ t w l.
          update_from-Taken (motor_id + 1) rounds true [] [] t (omega arith) (omega (arith, sum)) tt
            w l)
  update_from-Taken motor_id (suc rounds) any (bytes ∷ queue) (s ∷ statuses) d low sum report waits
        slots =
      take_report motor_id rounds any (bytes ∷ queue)
        (queue ++ board.answer (wire (read_motor_status motor_id)) ∷ []) bytes s
        (statuses ++ statuses_from status motor_id (suc rounds)) d low (omega (arith, sum)) refl
        (report.0) waits slots
        (λ t w l.
          subst (λ statuses. Taken (motor_id + 1) rounds true statuses t)
            (append_assoc statuses (status motor_id ∷ [])
              (statuses_from status (motor_id + 1) rounds))
            (update_from-Taken (motor_id + 1) rounds true
              (queue ++ board.answer (wire (read_motor_status motor_id)) ∷ [])
              (statuses ++ status motor_id ∷ []) t (omega arith) (omega (arith, sum))
              (AllReport-append board queue statuses _ (status motor_id) (report.1)
                (answers motor_id low (omega (arith, sum))))
              w l))
  update_from-Taken motor_id (suc rounds) any [] (s ∷ statuses) d low sum report waits slots =
      absurd report
  update_from-Taken motor_id (suc rounds) any (bytes ∷ queue) [] d low sum report waits slots =
      absurd report

  -- An update takes the six oldest statuses, slot by slot: first those that waited in the socket when
  -- it began, then the answers to its own requests; what it does not take waits behind it. So with
  -- nothing in the socket every slot gets the status of its motor, and with `k` late statuses the slots
  -- from the `k`th on get the statuses of the motors `k` places before, and `k` statuses wait again.
  pub update_once-Takes :
      (statuses : List MotorStatus) (d : Device os MotorController)
      → Pending board statuses d.link
      → length d.object.cached_status ≡ 6
      → Returns (update_once d) (λ done t.
        (done ≡ true)
        × (timeless_cache t.object ≡ take 6 (map timeless (statuses ++ statuses_from status 1 6)))
        × (length t.object.cached_status ≡ 6)
        × (t.object.config ≡ d.object.config)
        × Pending board (drop 6 (statuses ++ statuses_from status 1 6)) t.link)
  unfolding update_once
  update_once-Takes statuses d pending slots =
      Returns-mono (update_once d) _ _
        (update_from-Taken 1 6 false pending.queue statuses d (omega arith) (omega arith)
          pending.report pending.waits slots)
        (λ done t k. (k.0, k.1.cache, k.1.slots, k.1.config, k.1.pending))
