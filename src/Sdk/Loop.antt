-- ===== src/Sdk/Loop.antt =====
-- `unified_update_loop` of src/glove_sdk.cpp. As in the loops of the parts, a list has what the loads
-- of `thread_running_` return; behind its end they return `false`.
use joyson_glove_sdk.Prelude.{ℕ, ◌^◌, Bool, true, false, List, [], ◌∷◌, is_some, if◌then◌else◌}
use joyson_glove_sdk.Prelude.Float.{Float}
use joyson_glove_sdk.Prelude.State.{State, pure, ◌>>=◌, ◌>>◌, gets}
use joyson_glove_sdk.Udp.Os.{Os}
use joyson_glove_sdk.Device.Loop.{sleep_rest}
use joyson_glove_sdk.Motor
use joyson_glove_sdk.Encoder
use joyson_glove_sdk.Imu
use joyson_glove_sdk.Sdk.Parts.{System, on_world, on_motor, on_encoder, on_imu}

-- The three loads of the flag in a round, by the part that is updated next, with the start of the round.
pub data LoadOf : Type 0 where
  motor_next : LoadOf
  encoder_next imu_next : ℕ → LoadOf

module _ {os : Os} {F : Type 0} ⦃fl : Float F⦄ where
  unfoldable pub update_motor : State (System os F) (Unit {0})
  update_motor = do
    s ← gets (λ s. s.sdk)
    if is_some s.motor_controller then (do on_motor Motor.update_once; pure tt) else pure tt

  unfoldable pub update_encoder : State (System os F) (Unit {0})
  update_encoder = do
    s ← gets (λ s. s.sdk)
    if is_some s.encoder_reader then (do on_encoder Encoder.update_once; pure tt) else pure tt

  unfoldable pub update_imu : State (System os F) (Unit {0})
  update_imu = do
    s ← gets (λ s. s.sdk)
    if is_some s.imu_reader then (do on_imu Imu.update_once; pure tt) else pure tt

  -- The rest of the interval is slept, unless it is a millisecond or less.
  unfoldable pub sleep_round : ℕ → State (System os F) (Unit {0})
  sleep_round started = do
    s ← gets (λ s. s.sdk)
    on_world (sleep_rest os (10 ^ 6) s.config.update_interval started)

  -- What the loop does between two loads of the flag.
  unfoldable pub round_part : LoadOf → State (System os F) LoadOf
  round_part motor_next = do
    started ← on_world os.steady_now
    update_motor
    pure (encoder_next started)
  round_part (encoder_next started) = do update_encoder; pure (imu_next started)
  round_part (imu_next started) = do update_imu; sleep_round started; pure motor_next

  unfoldable pub updates_from : LoadOf → List Bool → State (System os F) (Unit {0})
  updates_from _ [] = pure tt
  updates_from _ (false ∷ _) = pure tt
  updates_from point (true ∷ loads) = do next ← round_part point; updates_from next loads

  unfoldable pub unified_update_loop : List Bool → State (System os F) (Unit {0})
  unified_update_loop = updates_from motor_next
