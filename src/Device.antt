-- ===== src/Device.antt =====
-- What src/motor_controller.cpp, src/encoder_reader.cpp and src/imu_reader.cpp have in common: the
-- client that they share, an update thread, and the way they ask the board.
pub mod Keeps
pub mod Loop
pub mod Rounds
pub mod Tallies
pub mod Links
pub mod Replies
use joyson_glove_sdk.Prelude.{
  ℕ, ◌-◌, ◌/◌, ◌^◌, Bool, true, false, Option, none, some, leb, is_some, not, if◌then◌else◌,
}
use joyson_glove_sdk.Prelude.Int.{ℤ, sub_ℕ}
use joyson_glove_sdk.Prelude.Monad.{Checked, ok, out_of_bounds}
use joyson_glove_sdk.Prelude.State.{State, pure, ◌>>=◌, ◌>>◌, gets, modify, lift, on_option}
use joyson_glove_sdk.Protocol.Packet.{Packet}
use joyson_glove_sdk.Udp.Os.{Os}
use joyson_glove_sdk.Udp.Client.{Link, sys, send_and_receive}

-- The result of a call that may throw `std::system_error`.
pub data Outcome (A : Type 0) : Type 0 where
  returned : A → Outcome A
  threw : Outcome A

-- `true`, unless the start of a thread threw.
abbrev pub start_result : Outcome (Unit {0}) → Outcome Bool
start_result (returned _) = returned true
start_result threw = threw

-- `thread_running_`, and whether the `std::thread` is joinable.
pub record UpdateThread : Type 0 where
  pub running : Bool
  pub joinable : Bool

abbrev pub no_thread : UpdateThread
no_thread = record { running = false; joinable = false }

-- An object with its update thread, and the link that it shares.
pub record Device (os : Os) (C : Type 0) : Type 0 where
  pub object : C
  pub thread : UpdateThread
  pub link : Link os

-- `duration_cast<milliseconds>(now - earlier)` of times in nanoseconds: it cuts off toward 0.
unfoldable pub milliseconds_since : ℕ → ℕ → ℤ
milliseconds_since now earlier =
    if leb earlier now
    then sub_ℕ ((now - earlier) / 10 ^ 6) 0
    else sub_ℕ 0 ((earlier - now) / 10 ^ 6)

module _ {os : Os} where
  -- A call on the link.
  abbrev pub on_link : {C A : Type 0} → State (Link os) A → State (Device os C) A
  on_link m d = elim (m d.link) [
    | ok (a, l) ↦ ok (a, record d { link = l })
    | out_of_bounds ↦ out_of_bounds
  ]

  abbrev pub on_object : {C : Type 0} → (C → C) → State (Device os C) (Unit {0})
  on_object f = modify (λ d. record d { object = f d.object })

  abbrev pub on_thread :
      {C : Type 0} → (UpdateThread → UpdateThread) → State (Device os C) (Unit {0})
  on_thread f = modify (λ d. record d { thread = f d.thread })

  -- The clock was read.
  abbrev pub tick : State (Link os) (Unit {0})
  tick = modify (λ l. record l { world = (os.steady_now l.world).1 })

  -- A parser, which reads the clock when it returns a value.
  unfoldable pub stamped : {A : Type 0} → (ℕ → Checked (Option A)) → State (Link os) (Option A)
  stamped parse = do
    now ← gets (λ l. (os.steady_now l.world).0)
    value ← lift (parse now)
    on_option (pure none) (λ a. do tick; pure (some a)) value

  -- A request, and the packet that comes back.
  unfoldable pub ask : {C : Type 0} → Checked Packet → State (Device os C) (Option Packet)
  ask request = do packet ← lift request; on_link (send_and_receive packet)

  -- A request whose response is only awaited.
  unfoldable pub order : {C : Type 0} → Checked Packet → State (Device os C) Bool
  order request = do response ← ask request; pure (is_some response)

  -- A request whose response is parsed.
  unfoldable pub fetch :
      {C A : Type 0}
      → Checked Packet
      → (ℕ → Packet → Checked (Option A))
      → State (Device os C) (Option A)
  fetch request parse = do
    response ← ask request
    elim response [ none ↦ pure none | some p ↦ on_link (stamped (λ now. parse now p)) ]

  -- `start_status_update_thread` and both `start_update_thread`: a new thread is assigned to a
  -- `std::thread`, which ends the program where that is joinable.
  unfoldable pub start_thread : {C : Type 0} → State (Device os C) (Outcome (Unit {0}))
  start_thread = do
    t ← gets (λ d. d.thread)
    if t.running then pure (returned tt) else do
      on_thread (λ t. record t { running = true })
      started ← on_link (sys os.start_thread)
      if not started
          then (do on_thread (λ t. record t { running = false }); pure threw)
          else if t.joinable
          then lift out_of_bounds
          else (do on_thread (λ t. record t { joinable = true }); pure (returned tt))

  -- `stop_status_update_thread` and both `stop_update_thread`, without what the thread still does
  -- before it is joined.
  unfoldable pub stop_thread : {C : Type 0} → State (Device os C) (Unit {0})
  stop_thread = do
    t ← gets (λ d. d.thread)
    if not t.running
        then pure tt
        else on_thread (λ t. record t { running = false; joinable = false })

  -- The end of every `initialize`: the thread is started if the configuration says so.
  unfoldable pub finish_initialize : {C : Type 0} → Bool → State (Device os C) (Outcome Bool)
  finish_initialize auto_start_thread =
      if not auto_start_thread
      then pure (returned true)
      else do started ← start_thread; pure (start_result started)
