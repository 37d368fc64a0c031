-- ===== src/Sdk/Turns/Callers.antt =====
-- What the turns of a caller of src/glove_sdk.cpp keep, by the places of both threads.
use joyson_glove_sdk.Prelude.{
  ℕ, ◌≡◌, refl, sym, ap, ◌∙◌, subst, Bool, true, false, not, All, List, [], ◌∷◌, if◌then◌else◌,
}
use joyson_glove_sdk.Prelude.Float.{Float}
use joyson_glove_sdk.Prelude.State.{pure, ◌>>◌, Returns, Returns->>=, Returns-if}
use joyson_glove_sdk.Udp.Os.{Os}
use joyson_glove_sdk.Udp.Sockets.{SocketLaws}
use joyson_glove_sdk.Device.{no_thread}
use joyson_glove_sdk.Sdk.{ensure_initialized}
use joyson_glove_sdk.Sdk.Parts.{System}
use joyson_glove_sdk.Sdk.Lifecycle.{IsIdle}
use joyson_glove_sdk.Sdk.Calls.{
  ApiCall, initializing, shutting_down, starting, stopping, setting_mode, setting_position,
  setting_force, setting_speed, setting_all_modes, setting_all_positions, setting_all_forces,
  reading_angles, reading_orientation, reading_statistics, resetting_statistics, calibrating,
  calibrating_encoders, calibrating_imu, IsTyped, perform,
}
use joyson_glove_sdk.Sdk.CallKeeps.{true_ne}
use joyson_glove_sdk.Sdk.Phases.{Phase, idle, ready, running, raised, Next, IsIn}
use joyson_glove_sdk.Sdk.Refinement.{not_initialized}
use joyson_glove_sdk.Sdk.Histories.{perform-Simulates}
use joyson_glove_sdk.Sdk.Turns.{
  Place, loading, ended, Stage, calling, stopping_before, closing_before, gone, begin_stop,
  finish_shutdown, shut, call_turn, begin_call, caller_turn,
}
use joyson_glove_sdk.Sdk.Turns.Places.{
  GoesOn, GoesOn-running, IsAlive, IsAlive-ended, IsAlive-alive,
}
use joyson_glove_sdk.Sdk.Turns.Joins.{
  IsIn-thread, IsJoining, stopped, Halts, begin_stop-Halts, finish_shutdown-IsIdle, joined,
}

-- A stage outside of the calls, with arguments of their types from there on.
abbrev AreTyped : Stage → Type 0
AreTyped (calling calls) = All IsTyped calls
AreTyped gone = Unit
AreTyped _ = ⊥

module _ {os : Os} (F : Type 0) ⦃fl : Float F⦄ (laws : SocketLaws os) (others : ℕ → Bool) where
  -- A system between two calls, by the place of its update thread.
  abbrev IsBetween : Place → System os F → Type 0
  IsBetween place s = (p : Phase) × IsIn laws others p s × IsAlive p place

  -- The system by the places of both threads.
  abbrev pub IsAt : Stage → Place → System os F → Type 0
  IsAt (calling calls) place s = IsBetween place s × All IsTyped calls
  IsAt (stopping_before calls) place s = IsJoining F laws others s × All IsTyped calls
  IsAt (closing_before after) place s = IsJoining F laws others s × AreTyped after
  IsAt gone place s = (place ≡ ended) × IsIdle laws others s

  after_shutdown :
      (after : Stage) (s : System os F) → AreTyped after → IsIdle laws others s → IsAt after ended s
  after_shutdown (calling calls) s typed h = ((idle, h, tt), typed)
  after_shutdown gone s typed h = (refl, h)
  after_shutdown (stopping_before calls) s typed h = absurd typed
  after_shutdown (closing_before after) s typed h = absurd typed

  abbrev pub IsAtTurn : Stage × Place → System os F → Type 0
  IsAtTurn (stage, place) t = IsAt stage place t

  -- A shutdown of a whole SDK.
  shut_whole :
      (after : Stage) (place : Place) (p : Phase) (s : System os F)
      → AreTyped after
      → IsIn laws others p s
      → stopped p ≡ ready
      → s.sdk.initialized ≡ true
      → IsAlive p place
      → Returns (shut after place s) IsAtTurn
  unfolding shut ensure_initialized
  shut_whole after place p s typed h whole up a =
      Returns-if (not s.sdk.initialized) _ _ IsAtTurn s (λ e. absurd (true_ne (sym e ∙ ap not up)))
        (λ _.
          Returns->>= begin_stop _ (λ waits t. Halts F laws others p waits t) IsAtTurn s
            (begin_stop-Halts F laws others p s h) by_join)
    where
      by_join :
          (waits : Bool) (t : System os F)
          → Halts F laws others p waits t
          → Returns
              ((if waits
                  then pure (closing_before after, place)
                  else (finish_shutdown >> pure (after, place)))
                t)
              IsAtTurn
      by_join true t k = (k.1, typed)
      by_join false t k =
          Returns->>= finish_shutdown (λ _. pure (after, place)) (λ _ t. IsIdle laws others t)
            IsAtTurn t
            (finish_shutdown-IsIdle F laws others t (subst (λ p. IsIn laws others p t) whole (k.1)))
            (λ _ u i.
              subst (λ place. IsAt after place u) (sym (IsAlive-ended p place a (k.0)))
                (after_shutdown after u typed i))

  shut-IsAt :
      (after : Stage) (place : Place) (p : Phase) (s : System os F)
      → AreTyped after
      → IsIn laws others p s
      → IsAlive p place
      → Returns (shut after place s) IsAtTurn
  unfolding shut ensure_initialized
  shut-IsAt after (loading point) idle s typed h a = absurd a
  shut-IsAt after ended idle s typed h a =
      Returns-if (not s.sdk.initialized) _ _ IsAtTurn s (λ _. after_shutdown after s typed h)
        (λ e. absurd (not_initialized F laws others s h e))
  shut-IsAt after place ready s typed h a =
      shut_whole after place ready s typed h refl h.initialized a
  shut-IsAt after place running s typed h a =
      shut_whole after place running s typed h refl h.initialized a
  shut-IsAt after place raised s typed h a =
      shut_whole after place raised s typed h refl h.initialized a

  stop-IsAt :
      (calls : List ApiCall) (place : Place) (s : System os F)
      → All IsTyped calls
      → IsBetween place s
      → Returns (begin_call stopping calls place s) IsAtTurn
  unfolding begin_call
  stop-IsAt calls place s typed (p, h, a) =
      Returns->>= begin_stop _ (λ waits t. Halts F laws others p waits t) IsAtTurn s
        (begin_stop-Halts F laws others p s h) by_join
    where
      IsAlive-stopped : (p : Phase) → IsAlive (stopped p) ended
      IsAlive-stopped idle = tt
      IsAlive-stopped ready = tt
      IsAlive-stopped running = tt
      IsAlive-stopped raised = tt

      by_join :
          (waits : Bool) (t : System os F)
          → Halts F laws others p waits t
          → Returns
              (pure (if waits then stopping_before calls else calling calls, place) t)
              IsAtTurn
      by_join true t k = (k.1, typed)
      by_join false t k =
          subst (λ place. IsAt (calling calls) place t) (sym (IsAlive-ended p place a (k.0)))
            ((stopped p, k.1, IsAlive-stopped p), typed)

  call_turn-IsAt :
      (call : ApiCall) (calls : List ApiCall) (place : Place) (s : System os F)
      → GoesOn call
      → IsTyped call
      → All IsTyped calls
      → IsBetween place s
      → Returns (call_turn call calls place s) IsAtTurn
  unfolding call_turn
  call_turn-IsAt call calls place s on one typed (p, h, a) =
      Returns->>= (perform call) _ _ IsAtTurn s (perform-Simulates F laws others call one p s h)
        (λ _ t (q, n, k). (
          (
            q,
            k,
            IsAlive-alive p q place t.sdk.thread (IsIn-thread F laws others q t k)
                (λ e. GoesOn-running call on q (subst (λ p. Next call p q) e n)) a,
          ),
          typed,
        ))

  begin_call-IsAt :
      (call : ApiCall) (calls : List ApiCall) (place : Place) (s : System os F)
      → IsTyped call
      → All IsTyped calls
      → IsBetween place s
      → Returns (begin_call call calls place s) IsAtTurn
  unfolding begin_call
  begin_call-IsAt initializing calls place s one typed h =
      call_turn-IsAt initializing calls place s tt one typed h
  begin_call-IsAt starting calls place s one typed h =
      call_turn-IsAt starting calls place s tt one typed h
  begin_call-IsAt (setting_mode id m) calls place s one typed h =
      call_turn-IsAt (setting_mode id m) calls place s tt one typed h
  begin_call-IsAt (setting_position id p) calls place s one typed h =
      call_turn-IsAt (setting_position id p) calls place s tt one typed h
  begin_call-IsAt (setting_force id f) calls place s one typed h =
      call_turn-IsAt (setting_force id f) calls place s tt one typed h
  begin_call-IsAt (setting_speed id v p) calls place s one typed h =
      call_turn-IsAt (setting_speed id v p) calls place s tt one typed h
  begin_call-IsAt (setting_all_modes m) calls place s one typed h =
      call_turn-IsAt (setting_all_modes m) calls place s tt one typed h
  begin_call-IsAt (setting_all_positions positions) calls place s one typed h =
      call_turn-IsAt (setting_all_positions positions) calls place s tt one typed h
  begin_call-IsAt (setting_all_forces forces) calls place s one typed h =
      call_turn-IsAt (setting_all_forces forces) calls place s tt one typed h
  begin_call-IsAt reading_angles calls place s one typed h =
      call_turn-IsAt reading_angles calls place s tt one typed h
  begin_call-IsAt reading_orientation calls place s one typed h =
      call_turn-IsAt reading_orientation calls place s tt one typed h
  begin_call-IsAt reading_statistics calls place s one typed h =
      call_turn-IsAt reading_statistics calls place s tt one typed h
  begin_call-IsAt resetting_statistics calls place s one typed h =
      call_turn-IsAt resetting_statistics calls place s tt one typed h
  begin_call-IsAt calibrating calls place s one typed h =
      call_turn-IsAt calibrating calls place s tt one typed h
  begin_call-IsAt calibrating_encoders calls place s one typed h =
      call_turn-IsAt calibrating_encoders calls place s tt one typed h
  begin_call-IsAt calibrating_imu calls place s one typed h =
      call_turn-IsAt calibrating_imu calls place s tt one typed h
  begin_call-IsAt shutting_down calls place s one typed (p, h, a) =
      shut-IsAt (calling calls) place p s typed h a
  begin_call-IsAt stopping calls place s one typed h = stop-IsAt calls place s typed h

  pub caller_turn-IsAt :
      (stage : Stage) (place : Place) (s : System os F)
      → IsAt stage place s
      → Returns (caller_turn stage place s) IsAtTurn
  unfolding caller_turn
  caller_turn-IsAt (calling (call ∷ calls)) place s h =
      begin_call-IsAt call calls place s ((h.1).0) ((h.1).1) (h.0)
  caller_turn-IsAt (calling []) place s ((p, h, a), typed) = shut-IsAt gone place p s tt h a
  caller_turn-IsAt (stopping_before calls) (loading point) s h = h
  caller_turn-IsAt (stopping_before calls) ended s h =
      ((ready, joined F laws others s (h.0), tt), h.1)
  caller_turn-IsAt (closing_before after) (loading point) s h = h
  caller_turn-IsAt (closing_before after) ended s h =
      Returns->>= finish_shutdown (λ _. pure (after, ended)) (λ _ t. IsIdle laws others t) IsAtTurn
        (record s { sdk = record s.sdk { thread = no_thread } })
        (finish_shutdown-IsIdle F laws others
          (record s { sdk = record s.sdk { thread = no_thread } }) (joined F laws others s (h.0)))
        (λ _ t i. after_shutdown after t (h.1) i)
  caller_turn-IsAt gone place s h = h
