-- ===== src/Device/Loop.antt =====
-- What `status_update_loop` of src/motor_controller.cpp and `update_loop` of src/encoder_reader.cpp
-- and src/imu_reader.cpp have in common. Another thread lowers `thread_running_`, so a loop takes
-- the list of what its loads of the flag return; behind the list's end they return `false`.
use joyson_glove_sdk.Prelude.{
  ℕ, ◌+◌, ◌-◌, ◌*◌, ◌^◌, Bool, true, false, List, [], ◌∷◌, ltb, if◌then◌else◌,
}
use joyson_glove_sdk.Prelude.Monad.{Checked, ok, out_of_bounds}
use joyson_glove_sdk.Prelude.State.{State, pure, lift, ◌>>=◌, ◌>>◌, gets}
use joyson_glove_sdk.Udp.Os.{Os}
use joyson_glove_sdk.Udp.Client.{sys}
use joyson_glove_sdk.Device.{Device, on_link}

-- The rest of an interval in milliseconds that began at `started` is slept, where it is longer than
-- `least` nanoseconds.
unfoldable pub sleep_rest : (os : Os) → ℕ → ℕ → ℕ → os.World → Unit {0} × os.World
sleep_rest os least interval started w =
    let (now, v) = os.steady_now w in
    if ltb (now + least) (interval * 10 ^ 6 + started)
    then (tt, os.sleep_for (interval * 10 ^ 6 + started - now) v)
    else (tt, v)

-- `consecutive_failures`, an `int`: the increment of its greatest value is undefined behaviour, as a
-- read outside of an array is.
abbrev pub count_failures : Bool → ℕ → Checked ℕ
count_failures true failures = ok 0
count_failures false failures =
    if ltb (failures + 1) (2 ^ 31) then ok (failures + 1) else out_of_bounds

module _ {os : Os} {C : Type 0} (interval : C → ℕ) (update_once : State (Device os C) Bool) where
  -- The body of the loops, without their loads of the flag.
  unfoldable pub round : State (Device os C) Bool
  round = do
    started ← on_link (sys os.steady_now)
    success ← update_once
    length_of_round ← gets (λ d. interval d.object)
    on_link (sys (sleep_rest os 0 length_of_round started))
    pure success

  -- A loop that loads the flag once for a round; it returns `consecutive_failures`.
  unfoldable pub repeat_updates : List Bool → ℕ → State (Device os C) ℕ
  repeat_updates [] failures = pure failures
  repeat_updates (false ∷ _) failures = pure failures
  repeat_updates (true ∷ loads) failures = do
    success ← round
    counted ← lift (count_failures success failures)
    repeat_updates loads counted

  -- A loop that loads it a second time, when the clock was read.
  unfoldable pub repeat_checked_updates : List Bool → ℕ → State (Device os C) ℕ
  repeat_checked_updates [] failures = pure failures
  repeat_checked_updates (false ∷ _) failures = pure failures
  repeat_checked_updates (true ∷ []) failures = do on_link (sys os.steady_now); pure failures
  repeat_checked_updates (true ∷ false ∷ _) failures = do on_link (sys os.steady_now); pure failures
  repeat_checked_updates (true ∷ true ∷ loads) failures = do
    success ← round
    counted ← lift (count_failures success failures)
    repeat_checked_updates loads counted
