-- ===== src/Sdk/Turns.antt =====
-- The update thread of a `GloveSDK`, src/glove_sdk.cpp, and a thread that makes calls on the SDK and
-- then destroys it, in turns. A turn of the update thread goes from one load of its flag to the next
-- one. A turn of the caller is a whole call, but `stop`, and `shutdown` with it, has two where the
-- thread is there: up to the join, and behind it.
pub mod Joins
pub mod Places
pub mod Callers
pub mod Safety
use joyson_glove_sdk.Prelude.{◌≡◌, Bool, true, false, not, List, [], ◌∷◌, if◌then◌else◌}
use joyson_glove_sdk.Prelude.Float.{Float}
use joyson_glove_sdk.Prelude.Monad.{ok}
use joyson_glove_sdk.Prelude.State.{State, pure, ◌>>=◌, ◌>>◌, gets}
use joyson_glove_sdk.Udp.Os.{Os}
use joyson_glove_sdk.Device.{no_thread}
use joyson_glove_sdk.Sdk.{cleanup_resources, ensure_initialized}
use joyson_glove_sdk.Sdk.Parts.{System, on_sdk}
use joyson_glove_sdk.Sdk.Calls.{ApiCall, shutting_down, stopping, perform}
use joyson_glove_sdk.Sdk.Loop.{LoadOf, motor_next, round_part}

-- Where the update thread is: in front of a load of its flag, or at its end. It is also at its end
-- where no thread was made.
pub data Place : Type 0 where
  loading : LoadOf → Place
  ended : Place

-- Where the caller is: in front of these calls and the destructor, in the join of a `stop` in front
-- of calls, in the join of a `shutdown` behind which it is at another stage, or behind the destructor.
pub data Stage : Type 0 where
  calling stopping_before : List ApiCall → Stage
  closing_before : Stage → Stage
  gone : Stage

-- Both threads and the SDK that they share.
pub record Turns (os : Os) (F : Type 0) : Type 0 where
  pub place : Place
  pub stage : Stage
  pub system : System os F

-- The place of a thread that is there: a new one begins with the motors.
abbrev pub alive : Place → Place
alive (loading point) = loading point
alive ended = loading motor_next

module _ {os : Os} {F : Type 0} ⦃fl : Float F⦄ where
  unfoldable pub thread_turn : Place → State (System os F) Place
  thread_turn (loading point) = do
    t ← gets (λ s. s.sdk.thread)
    if t.running then (do next ← round_part point; pure (loading next)) else pure ended
  thread_turn ended = pure ended

  -- `stop` up to the join; whether it joins.
  unfoldable pub begin_stop : State (System os F) Bool
  begin_stop = do
    t ← gets (λ s. s.sdk.thread)
    if not t.running
        then pure false
        else do on_sdk (λ s. record s { thread = record t { running = false } }); pure t.joinable

  -- `shutdown` behind its `stop`.
  unfoldable pub finish_shutdown : State (System os F) (Unit {0})
  finish_shutdown = do on_sdk (λ s. record s { initialized = false }); cleanup_resources

  -- `shutdown`, behind which the caller is at `after`.
  unfoldable pub shut : Stage → Place → State (System os F) (Stage × Place)
  shut after place = do
    ready ← ensure_initialized
    if not ready then pure (after, place) else do
      waits ← begin_stop
      if waits then pure (closing_before after, place) else do finish_shutdown; pure (after, place)

  -- A call that joins no thread; it may have made one.
  unfoldable pub call_turn : ApiCall → List ApiCall → Place → State (System os F) (Stage × Place)
  call_turn call calls place = do
    perform call
    t ← gets (λ s. s.sdk.thread)
    pure (calling calls, if t.joinable then alive place else place)

  unfoldable pub begin_call : ApiCall → List ApiCall → Place → State (System os F) (Stage × Place)
  begin_call shutting_down calls place = shut (calling calls) place
  begin_call stopping calls place = do
    waits ← begin_stop
    pure (if waits then stopping_before calls else calling calls, place)
  begin_call call calls place = call_turn call calls place

  -- The join waits for the end of the update thread.
  unfoldable pub caller_turn : Stage → Place → State (System os F) (Stage × Place)
  caller_turn (calling (call ∷ calls)) place = begin_call call calls place
  caller_turn (calling []) place = shut gone place
  caller_turn (stopping_before calls) (loading point) = pure (stopping_before calls, loading point)
  caller_turn (stopping_before calls) ended = do
    on_sdk (λ s. record s { thread = no_thread })
    pure (calling calls, ended)
  caller_turn (closing_before after) (loading point) = pure (closing_before after, loading point)
  caller_turn (closing_before after) ended = do
    on_sdk (λ s. record s { thread = no_thread })
    finish_shutdown
    pure (after, ended)
  caller_turn gone place = pure (gone, place)

  pub data Turn (t : Turns os F) : Turns os F → Type 0 where
    of_thread :
        (place : Place) (s : System os F)
        → thread_turn t.place t.system ≡ ok (place, s)
        → Turn t (record { place = place; stage = t.stage; system = s })
    of_caller :
        (stage : Stage) (place : Place) (s : System os F)
        → caller_turn t.stage t.place t.system ≡ ok ((stage, place), s)
        → Turn t (record { place = place; stage = stage; system = s })

  pub data Reach (t : Turns os F) : Turns os F → Type 0 where
    here : Reach t t
    next : {u v : Turns os F} → Reach t u → Turn u v → Reach t v
