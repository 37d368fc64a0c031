-- ===== src/Motor/Late.antt =====
-- The loop of the update thread, `status_update_loop` of src/motor_controller.cpp, with a board that
-- answers every request.
use mathlib.Core.List.{map-append}
use joyson_glove_sdk.Prelude.{
  ℕ, ◌+◌, ◌-◌, ◌≤◌, ◌≡◌, refl, sym, ap, ◌∙◌, subst, arith, Bool, true, false, List, [], ◌∷◌, ◌++◌,
  map, length, take, drop, length-map, length-append, length-drop, drop-take-append,
}
use joyson_glove_sdk.Prelude.State.{Returns, Returns->>=, Returns-mono}
use joyson_glove_sdk.Protocol.Parse.{MotorStatus}
use joyson_glove_sdk.Udp.Os.{Os}
use joyson_glove_sdk.Udp.Client.{Link}
use joyson_glove_sdk.Udp.Board.{Board}
use joyson_glove_sdk.Device.{Device}
use joyson_glove_sdk.Device.Keeps.{IsTimed}
use joyson_glove_sdk.Device.Loop.{round, repeat_checked_updates}
use joyson_glove_sdk.Device.Rounds.{
  checked_rounds, after_round, Returns-count_failures, round-keeps,
}
use joyson_glove_sdk.Motor.{MotorController, update_once, status_update_loop}
use joyson_glove_sdk.Motor.Reports.{timeless, Pending, Answers}
use joyson_glove_sdk.Motor.Lag.{statuses_from, update_once-Takes}
use joyson_glove_sdk.Motor.Slots.{timeless_cache}

module _ {os : Os} (board : Board os) where
  -- So many statuses wait in the socket of a connected client.
  pub record IsBehind (k : ℕ) (l : Link os) : Type 0 where
    pub statuses : List MotorStatus
    pub pending : Pending board statuses l
    pub count : length statuses ≡ k

  IsBehind-IsTimed : (k : ℕ) → IsTimed (IsBehind k)
  IsBehind-IsTimed k = record {
    tick = λ l h. in_world l ((os.steady_now l.world).1) (board.steady_now-waiting l.world) h;
    sleep = λ nanoseconds l h.
        in_world l (os.sleep_for nanoseconds l.world) (board.sleep_for-waiting nanoseconds l.world)
          h;
  }
    where
      in_world :
          (l : Link os) (w : os.World)
          → board.waiting w ≡ board.waiting l.world
          → IsBehind k l
          → IsBehind k (record l { world = w })
      in_world l w e h = record {
        statuses = h.statuses;
        count = h.count;
        pending = record {
          queue = h.pending.queue;
          report = h.pending.report;
          waits = record {
            connected = h.pending.waits.connected;
            waiting = e ∙ h.pending.waits.waiting;
          };
        };
      }

module _ {os : Os} (board : Board os) (status : ℕ → MotorStatus) (answers : Answers board status)
    (k : ℕ) (few : k ≤ 6) where
  -- From slot `k` on, the cache has the statuses of the motors from 1 on.
  abbrev pub IsShifted : MotorController → Type 0
  IsShifted c =
      (length c.cached_status ≡ 6)
      × (drop k (timeless_cache c) ≡ take (6 - k) (map timeless (statuses_from status 1 6)))

  drop-take :
      (xs ys : List MotorStatus) → length xs ≡ k → drop k (take 6 (xs ++ ys)) ≡ take (6 - k) ys
  drop-take xs ys e =
      let six : 6 ≡ length xs + (6 - k) = omega (arith, few, e) in
      ap (λ n. drop n (take 6 (xs ++ ys))) (sym e)
      ∙ ap (λ n. drop (length xs) (take n (xs ++ ys))) six
      ∙ drop-take-append xs ys (6 - k)

  update_once-IsShifted :
      (d : Device os MotorController)
      → IsBehind board k d.link
      → length d.object.cached_status ≡ 6
      → Returns
          (update_once d)
          (λ done t. IsBehind board k t.link × ((done ≡ true) × IsShifted t.object))
  update_once-IsShifted d h slots =
      Returns-mono (update_once d) _ _
        (update_once-Takes board status answers h.statuses d h.pending slots)
        (λ done t m. (
          record {
            statuses = drop 6 (h.statuses ++ statuses_from status 1 6);
            pending = m.4;
            count = omega (
              arith,
              length-drop 6 (h.statuses ++ statuses_from status 1 6),
              length-append h.statuses (statuses_from status 1 6),
              h.count,
            );
          },
          (
            m.0,
            (
              m.2,
              ap (drop k)
                    (m.1 ∙ ap (take 6) (map-append timeless h.statuses (statuses_from status 1 6)))
                  ∙ drop-take (map timeless h.statuses) (map timeless (statuses_from status 1 6))
                      (length-map timeless h.statuses ∙ h.count),
            ),
          ),
        ))

  round-IsShifted :
      (d : Device os MotorController)
      → IsBehind board k d.link
      → length d.object.cached_status ≡ 6
      → Returns
          (round (λ (c : MotorController). c.config.update_interval) update_once d)
          (λ done t. IsBehind board k t.link × ((done ≡ true) × IsShifted t.object))
  round-IsShifted d h slots =
      round-keeps (IsBehind-IsTimed board k) (λ (c : MotorController). c.config.update_interval)
        update_once (λ done c. (done ≡ true) × IsShifted c) d h
        (λ l b. update_once-IsShifted (record d { link = l }) b slots)

  -- The state of the device after `n` rounds.
  abbrev IsAfter : ℕ → Device os MotorController → Type 0
  IsAfter n t =
      IsBehind board k t.link × (length t.object.cached_status ≡ 6) × (1 ≤ n → IsShifted t.object)

  repeat-IsAfter :
      (loads : List Bool) (n : ℕ) (d : Device os MotorController)
      → IsAfter n d
      → Returns
          (repeat_checked_updates
            (λ (c : MotorController). c.config.update_interval)
            update_once
            loads
            0
            d)
          (λ failures t. (failures ≡ 0) × IsAfter (n + checked_rounds loads) t)
  unfolding repeat_checked_updates
  repeat-IsAfter [] n d h = (refl, (h.0, h.1, λ e. h.2 (omega (arith, e))))
  repeat-IsAfter (false ∷ loads) n d h = (refl, (h.0, h.1, λ e. h.2 (omega (arith, e))))
  repeat-IsAfter (true ∷ []) n d h =
      (refl, ((IsBehind-IsTimed board k).tick d.link (h.0), h.1, λ e. h.2 (omega (arith, e))))
  repeat-IsAfter (true ∷ false ∷ loads) n d h =
      (refl, ((IsBehind-IsTimed board k).tick d.link (h.0), h.1, λ e. h.2 (omega (arith, e))))
  repeat-IsAfter (true ∷ true ∷ loads) n d h =
      Returns->>= (round (λ (c : MotorController). c.config.update_interval) update_once) _ _ _ d
        (round-IsShifted d (h.0) (h.1))
        (λ done t m.
          Returns-count_failures done 0
            (repeat_checked_updates (λ (c : MotorController). c.config.update_interval) update_once
              loads)
            _ t (omega arith)
            (subst
              (λ done.
                Returns
                  (repeat_checked_updates (λ (c : MotorController). c.config.update_interval)
                    update_once loads (after_round done 0) t)
                  (λ failures u. (failures ≡ 0) × IsAfter (n + (checked_rounds loads + 1)) u))
              (sym (m.1.0))
              (Returns-mono
                (repeat_checked_updates (λ (c : MotorController). c.config.update_interval)
                  update_once loads 0 t)
                _ _ (repeat-IsAfter loads (n + 1) t (m.0, m.1.1.0, λ _. m.1.1))
                (λ failures u a. (a.0, (a.1.0, a.1.1, λ e. a.1.2 (omega arith)))))))

  -- Where `k` statuses, six at most, wait in the socket of a connected client when the update thread
  -- begins, and the board answers every request for a status: after any number of rounds but 0 the
  -- loop has counted no failure, `k` statuses still wait, and the cache has the statuses of the motors
  -- from 1 on in its slots from `k` on. So with no late response the slots stay right, and after one
  -- they stay wrong.
  pub status_update_loop-IsShifted :
      (loads : List Bool) (d : Device os MotorController)
      → 1 ≤ checked_rounds loads
      → IsBehind board k d.link
      → length d.object.cached_status ≡ 6
      → Returns
          (status_update_loop loads d)
          (λ failures t. (failures ≡ 0) × IsBehind board k t.link × IsShifted t.object)
  unfolding status_update_loop
  status_update_loop-IsShifted loads d some_round h slots =
      Returns-mono (status_update_loop loads d) _ _
        (repeat-IsAfter loads 0 d (h, slots, λ e. absurd (omega (arith, e))))
        (λ failures t a. (a.0, a.1.0, a.1.2 (omega (arith, some_round))))
