-- ===== src/Examples.antt =====
-- The programs in examples/: what they do with a `GloveSDK`. What they print is not modelled, but what
-- they read for it is.
pub mod MotorControl
pub mod ReadSensors
pub mod Steps
pub mod MotorRun
pub mod Reads
pub mod SensorRun
use joyson_glove_sdk.Prelude.{ℕ, Bool, not, true, false, if◌then◌else◌}
use joyson_glove_sdk.Prelude.Float.{Float}
use joyson_glove_sdk.Prelude.State.{State, pure, ◌>>=◌, ◌>>◌}
use joyson_glove_sdk.Prelude.Monad.{Checked}
use joyson_glove_sdk.Udp.Os.{Os}
use joyson_glove_sdk.Device.{Outcome, returned, threw}
use joyson_glove_sdk.Sdk.{destroy_sdk}
use joyson_glove_sdk.Sdk.Parts.{GloveConfig, System, glove_sdk, on_world}

module _ {os : Os} {F : Type 0} ⦃fl : Float F⦄ where
  -- `if (!done) { ...; return 1; }`
  abbrev pub or_fail : State (System os F) (Outcome ℕ) → Bool → State (System os F) (Outcome ℕ)
  or_fail rest done = if not done then pure (returned 1) else rest

  -- The same on a call that may throw.
  abbrev pub or_exit :
      State (System os F) (Outcome ℕ) → Outcome Bool → State (System os F) (Outcome ℕ)
  or_exit rest (returned done) = or_fail rest done
  or_exit rest threw = pure threw

  -- `std::this_thread::sleep_for`
  abbrev pub sleep : ℕ → State (System os F) (Unit {0})
  sleep nanoseconds = on_world (λ w. (tt, os.sleep_for nanoseconds w))

  -- The end of `main`: the SDK, a local variable, is destroyed, unless an exception ended the program.
  abbrev pub leave : Outcome ℕ → State (System os F) (Outcome ℕ)
  leave (returned code) = do destroy_sdk; pure (returned code)
  leave threw = pure threw

  -- A program with an SDK of its own; its exit code, or an exception.
  unfoldable pub run_main :
      GloveConfig → State (System os F) (Outcome ℕ) → os.World → Checked (Outcome ℕ × System os F)
  run_main config body w = (body >>= leave) (record { sdk = glove_sdk config; world = w })
