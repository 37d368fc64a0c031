-- ===== src/Sdk/Turns/Safety.antt =====
-- What the turns of the update thread and of a caller keep, src/glove_sdk.cpp.
use joyson_glove_sdk.Prelude.{ℕ, ◌≡◌, refl, sym, ap, ◌∙◌, subst, Bool, All, List}
use joyson_glove_sdk.Prelude.Float.{Float}
use joyson_glove_sdk.Prelude.State.{pure, Returns, Returns->>=, Returns-if, Returns-mono}
use joyson_glove_sdk.Udp.Os.{Os}
use joyson_glove_sdk.Udp.Sockets.{SocketLaws}
use joyson_glove_sdk.Sdk.Parts.{System}
use joyson_glove_sdk.Sdk.Lifecycle.{IsIdle}
use joyson_glove_sdk.Sdk.Calls.{ApiCall, IsTyped}
use joyson_glove_sdk.Sdk.CallKeeps.{true_ne, IsReadyWith}
use joyson_glove_sdk.Sdk.Phases.{Phase, running, IsIn, thread_of}
use joyson_glove_sdk.Sdk.Loop.{LoadOf, round_part}
use joyson_glove_sdk.Sdk.Updates.{round_part-IsBuilt}
use joyson_glove_sdk.Sdk.Turns.{
  Place, loading, ended, Stage, calling, stopping_before, closing_before, gone, thread_turn,
  caller_turn, Turns, Turn, of_thread, of_caller, Reach, here, next,
}
use joyson_glove_sdk.Sdk.Turns.Places.{IsAlive, IsAlive-running}
use joyson_glove_sdk.Sdk.Turns.Callers.{IsAt, IsAtTurn, caller_turn-IsAt}
use joyson_glove_sdk.Sdk.Turns.Joins.{IsJoining}
use joyson_glove_sdk.Sdk.Uncut.{NeverCuts, never_stable}

-- The caller is in a join.
abbrev pub InJoin : Stage → Type 0
InJoin (stopping_before calls) = Unit
InJoin (closing_before after) = Unit
InJoin _ = ⊥

module _ {os : Os} (F : Type 0) ⦃fl : Float F⦄ (laws : SocketLaws os) (never : NeverCuts os)
    (others : ℕ → Bool) where
  -- In a join, the update thread is at its end after its next turn.
  abbrev Moves : Stage → Place → System os F → Type 0
  Moves stage place s = IsAt F laws others stage place s × (InJoin stage → place ≡ ended)

  -- A turn of the update thread when the flag is down.
  lowered_turn :
      (stage : Stage) (point : LoadOf) (s : System os F)
      → IsJoining F laws others s
      → IsAt F laws others stage ended s
      → Returns (thread_turn (loading point) s) (λ place t. Moves stage place t)
  unfolding thread_turn
  lowered_turn stage point s h at =
      Returns-if s.sdk.thread.running _ (pure ended) (λ place t. Moves stage place t) s
        (λ e. absurd (true_ne (sym e ∙ ap (λ t. t.running) h.thread))) (λ _. (at, λ _. refl))

  thread_turn-Moves :
      (stage : Stage) (place : Place) (s : System os F)
      → IsAt F laws others stage place s
      → Returns (thread_turn place s) (λ place t. Moves stage place t)
  unfolding thread_turn
  thread_turn-Moves (calling calls) (loading point) s ((p, h, a), typed) =
      let whole : IsReadyWith laws others (λ t. t ≡ thread_of running) s =
        subst (λ p. IsIn laws others p s) (IsAlive-running p point a) h in
      Returns-if s.sdk.thread.running _ (pure ended) (λ place t. Moves (calling calls) place t) s
        (λ _.
          Returns->>= (round_part point) (λ next. pure (loading next))
            (λ _ t. IsReadyWith laws others (λ t. t ≡ thread_of running) t)
            (λ place t. Moves (calling calls) place t) s
            (round_part-IsBuilt (never_stable never laws others) (λ p n. n)
              (λ t. t ≡ thread_of running) point s whole)
            (λ next t k. (((running, k, tt), typed), λ e. absurd e)))
        (λ e. absurd (true_ne (sym (ap (λ t. t.running) whole.thread) ∙ e)))
  thread_turn-Moves (calling calls) ended s h = (h, λ e. refl)
  thread_turn-Moves (stopping_before calls) (loading point) s h =
      lowered_turn (stopping_before calls) point s (h.0) h
  thread_turn-Moves (stopping_before calls) ended s h = (h, λ e. refl)
  thread_turn-Moves (closing_before after) (loading point) s h =
      lowered_turn (closing_before after) point s (h.0) h
  thread_turn-Moves (closing_before after) ended s h = (h, λ e. refl)
  thread_turn-Moves gone (loading point) s h = absurd (not_ended (h.0))
    where
      not_ended : ¬ (loading point ≡ ended)
      not_ended e = cc
  thread_turn-Moves gone ended s h = (h, λ e. refl)

  abbrev IsReached : Turns os F → Type 0
  IsReached t = IsAt F laws others t.stage t.place t.system

  Turn-IsReached : (t u : Turns os F) → Turn t u → IsReached t → IsReached u
  Turn-IsReached t u (of_thread place s e) h =
      (subst (λ r. Returns r (λ place s. Moves t.stage place s)) e
        (thread_turn-Moves t.stage t.place t.system h)).0
  Turn-IsReached t u (of_caller stage place s e) h =
      subst (λ r. Returns r (IsAtTurn F laws others)) e
        (caller_turn-IsAt F laws others t.stage t.place t.system h)

  Reach-IsReached : (t u : Turns os F) → Reach t u → IsReached t → IsReached u
  Reach-IsReached t u here h = h
  Reach-IsReached t u (next {u = v} r step) h = Turn-IsReached v u step (Reach-IsReached t v r h)

  -- An SDK in any phase, whose update thread is in its loop in the phase `running` and in no other one,
  -- is used by another thread, which makes any calls with arguments of their types, `start`, `stop` and
  -- `shutdown` among them, catches what they throw, and then destroys it. The turns of both threads come in any order, the
  -- system keeps its descriptors as `SocketLaws` say, and the board sends no motor response with a body
  -- of 18 bytes. Whatever turns were made, the next turn of each thread returns: no null pointer is
  -- followed, and no read leaves its array. While the caller is in a join, the update thread ends with
  -- its next turn. Once the destructor is over, the update thread is at its end, nothing is there, and
  -- just the descriptors are open that are not the client's.
  pub turns-Returns :
      (p : Phase) (s : System os F) (place : Place) (calls : List ApiCall)
      → IsIn laws others p s
      → IsAlive p place
      → All IsTyped calls
      → (t : Turns os F) → Reach (record { place = place; stage = calling calls; system = s }) t
      → Returns (thread_turn t.place t.system) (λ place _. InJoin t.stage → place ≡ ended)
        × Returns (caller_turn t.stage t.place t.system) (λ _ _. Unit {0})
        × (t.stage ≡ gone → (t.place ≡ ended) × IsIdle laws others t.system)
  turns-Returns p s place calls h a typed t reach =
      let k : IsReached t = Reach-IsReached _ t reach ((p, h, a), typed) in
      (
        Returns-mono (thread_turn t.place t.system) _ _
            (thread_turn-Moves t.stage t.place t.system k) (λ _ _ m. m.1),
        Returns-mono (caller_turn t.stage t.place t.system) _ _
            (caller_turn-IsAt F laws others t.stage t.place t.system k) (λ _ _ _. tt),
        λ e. subst (λ stage. IsAt F laws others stage t.place t.system) e k,
      )
