-- ===== src/Sdk/Phases.antt =====
-- The life of a `GloveSDK`, include/joyson_glove/glove_sdk.hpp, as its users see it: four phases, and
-- what each call may do to them. In `raised` the flag of the update thread is up with no thread.
use joyson_glove_sdk.Prelude.{ℕ, ◌≡◌, ◌⊎◌, Bool, true, false, List, [], ◌∷◌}
use joyson_glove_sdk.Prelude.Float.{Float}
use joyson_glove_sdk.Udp.Os.{Os}
use joyson_glove_sdk.Udp.Sockets.{SocketLaws}
use joyson_glove_sdk.Device.{UpdateThread, no_thread}
use joyson_glove_sdk.Sdk.Parts.{System}
use joyson_glove_sdk.Sdk.Lifecycle.{IsIdle, IsReady}
use joyson_glove_sdk.Sdk.Calls.{ApiCall, initializing, shutting_down, starting, stopping}
use joyson_glove_sdk.Sdk.CallKeeps.{IsReadyWith}

pub data Phase : Type 0 where
  idle ready running raised : Phase

abbrev AfterInitialize : Phase → Phase → Type 0
AfterInitialize idle q = Unit
AfterInitialize p q = q ≡ p

abbrev AfterStart : Phase → Phase → Type 0
AfterStart ready q = (q ≡ running) ⊎ (q ≡ raised)
AfterStart p q = q ≡ p

abbrev AfterStop : Phase → Phase → Type 0
AfterStop idle q = q ≡ idle
AfterStop p q = q ≡ ready

abbrev pub Stays : Phase → Phase → Type 0
Stays p q = q ≡ p

-- The phases that a call may lead to.
abbrev pub Next : ApiCall → Phase → Phase → Type 0
Next initializing p q = AfterInitialize p q
Next shutting_down p q = q ≡ idle
Next starting p q = AfterStart p q
Next stopping p q = AfterStop p q
Next _ p q = Stays p q

-- A sequence of calls may lead from a phase to a phase.
abbrev pub Runs : List ApiCall → Phase → Phase → Type 0
Runs [] p q = q ≡ p
Runs (call ∷ calls) p q = (m : Phase) × Next call p m × Runs calls m q

-- The thread of an SDK that is initialized.
abbrev pub thread_of : Phase → UpdateThread
thread_of running = record { running = true; joinable = true }
thread_of raised = record { running = true; joinable = false }
thread_of _ = no_thread

module _ {os : Os} {F : Type 0} ⦃fl : Float F⦄ (laws : SocketLaws os) (others : ℕ → Bool) where
  -- The systems in a phase: with nothing in them and no descriptor open, or whole, with that thread.
  abbrev pub IsIn : Phase → System os F → Type 0
  IsIn idle = IsIdle laws others
  IsIn p = IsReadyWith laws others (λ t. t ≡ thread_of p)

  -- Between two calls: nothing is there, or everything is.
  abbrev pub IsLive : System os F → Type 0
  IsLive s = IsIdle laws others s ⊎ IsReady laws others s
