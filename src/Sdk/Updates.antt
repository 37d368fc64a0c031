-- ===== src/Sdk/Updates.antt =====
-- What `unified_update_loop` of src/glove_sdk.cpp keeps.
use joyson_glove_sdk.Prelude.{◌^◌, Bool, true, false, List, [], ◌∷◌, is_some}
use joyson_glove_sdk.Prelude.Float.{Float}
use joyson_glove_sdk.Prelude.State.{pure, Returns, Returns->>=, Returns-if, Returns-mono}
use joyson_glove_sdk.Protocol.Packet.{Packet}
use joyson_glove_sdk.Protocol.Parse.Motor.{IsCut}
use joyson_glove_sdk.Udp.Os.{Os}
use joyson_glove_sdk.Udp.Client.{Link}
use joyson_glove_sdk.Device.{UpdateThread}
use joyson_glove_sdk.Device.Keeps.{IsStable, IsStable-IsTimed}
use joyson_glove_sdk.Device.Rounds.{sleep_rest-keeps}
use joyson_glove_sdk.Motor
use joyson_glove_sdk.Motor.Updates as MotorUpdates
use joyson_glove_sdk.Encoder
use joyson_glove_sdk.Encoder.Keeps as EncoderKeeps
use joyson_glove_sdk.Imu
use joyson_glove_sdk.Imu.Keeps as ImuKeeps
use joyson_glove_sdk.Sdk.Parts.{System, on_motor, on_encoder, on_imu}
use joyson_glove_sdk.Sdk.States.{
  IsBuilt, in_world-IsBuilt, motor_config, encoder_config, imu_config, on_motor-IsBuilt,
  on_encoder-IsBuilt, on_imu-IsBuilt,
}
use joyson_glove_sdk.Sdk.Lifecycle.{all_parts}
use joyson_glove_sdk.Sdk.Loop.{
  LoadOf, motor_next, encoder_next, imu_next, update_motor, update_encoder, update_imu, sleep_round,
  round_part, updates_from, unified_update_loop,
}

module _ {os : Os} {F : Type 0} ⦃fl : Float F⦄ {P : Link os → Type 0} {R : Packet → Type 0}
    (stable : IsStable P R) (whole : (p : Packet) → R p → ¬ (IsCut p))
    (T : UpdateThread → Type 0) where
  abbrev IsWhole : System os F → Type 0
  IsWhole = IsBuilt P true T (all_parts F)

  update_motor-IsWhole : (s : System os F) → IsWhole s → Returns (update_motor s) (λ _ t. IsWhole t)
  unfolding update_motor
  update_motor-IsWhole s h =
      Returns-if (is_some s.sdk.motor_controller) _ (pure tt) _ s
        (λ _.
          Returns->>= (on_motor Motor.update_once) _ (λ _ t. IsWhole t) _ s
            (Returns-mono (on_motor Motor.update_once s) _ _
              (on_motor-IsBuilt P true T (all_parts F) Motor.update_once (λ _. Unit {0}) s h
                (λ d sound.
                  Returns-mono (Motor.update_once d) _ _
                    (MotorUpdates.update_once-IsSound stable motor_config whole d sound)
                    (λ _ t r. (r.0, tt))))
              (λ _ t r. r.0))
            (λ _ t k. k))
        (λ _. h)

  update_encoder-IsWhole :
      (s : System os F) → IsWhole s → Returns (update_encoder s) (λ _ t. IsWhole t)
  unfolding update_encoder
  update_encoder-IsWhole s h =
      Returns-if (is_some s.sdk.encoder_reader) _ (pure tt) _ s
        (λ _.
          Returns->>= (on_encoder Encoder.update_once) _ (λ _ t. IsWhole t) _ s
            (Returns-mono (on_encoder Encoder.update_once s) _ _
              (on_encoder-IsBuilt P true T (all_parts F) Encoder.update_once (λ _. Unit {0}) s h
                (λ d sound.
                  Returns-mono (Encoder.update_once d) _ _
                    (EncoderKeeps.update_once-IsSound stable encoder_config d sound)
                    (λ _ t r. (r.0, tt))))
              (λ _ t r. r.0))
            (λ _ t k. k))
        (λ _. h)

  update_imu-IsWhole : (s : System os F) → IsWhole s → Returns (update_imu s) (λ _ t. IsWhole t)
  unfolding update_imu
  update_imu-IsWhole s h =
      Returns-if (is_some s.sdk.imu_reader) _ (pure tt) _ s
        (λ _.
          Returns->>= (on_imu Imu.update_once) _ (λ _ t. IsWhole t) _ s
            (Returns-mono (on_imu Imu.update_once s) _ _
              (on_imu-IsBuilt P true T (all_parts F) Imu.update_once (λ _. Unit {0}) s h
                (λ d sound.
                  Returns-mono (Imu.update_once d) _ _
                    (ImuKeeps.update_once-IsSound stable imu_config d sound) (λ _ t r. (r.0, tt))))
              (λ _ t r. r.0))
            (λ _ t k. k))
        (λ _. h)

  pub round_part-IsBuilt :
      (point : LoadOf) (s : System os F)
      → IsWhole s
      → Returns (round_part point s) (λ _ t. IsWhole t)
  unfolding round_part sleep_round
  round_part-IsBuilt motor_next s h =
      Returns->>= update_motor _ (λ _ t. IsWhole t) _
        (record s { world = (os.steady_now s.world).1 })
        (update_motor-IsWhole _ (
          in_world-IsBuilt P true T (all_parts F) s ((os.steady_now s.world).1)
            (λ c p. stable.tick (record { client = c; world = s.world }) p) h))
        (λ _ t k. k)
  round_part-IsBuilt (encoder_next started) s h =
      Returns->>= update_encoder _ (λ _ t. IsWhole t) _ s (update_encoder-IsWhole s h) (λ _ t k. k)
  round_part-IsBuilt (imu_next started) s h =
      Returns->>= update_imu _ (λ _ t. IsWhole t) _ s (update_imu-IsWhole s h)
        (λ _ t k.
          in_world-IsBuilt P true T (all_parts F) t _
            (λ c p.
              sleep_rest-keeps (IsStable-IsTimed stable) (10 ^ 6) t.sdk.config.update_interval
                started (record { client = c; world = t.world }) p)
            k)

  updates_from-IsWhole :
      (point : LoadOf) (loads : List Bool) (s : System os F)
      → IsWhole s
      → Returns (updates_from point loads s) (λ _ t. IsWhole t)
  unfolding updates_from
  updates_from-IsWhole point [] s h = h
  updates_from-IsWhole point (false ∷ loads) s h = h
  updates_from-IsWhole point (true ∷ loads) s h =
      Returns->>= (round_part point) _ (λ _ t. IsWhole t) _ s (round_part-IsBuilt point s h)
        (λ next t k. updates_from-IsWhole next loads t k)

  -- Whatever the loads of the flag return, and where the board sends no motor response with a body of
  -- 18 bytes, the loop of the SDK's thread ends, without a read outside of an array, and all that is
  -- there when it begins is there and sound: the client, the parts with their caches, and the flags.
  pub unified_update_loop-IsBuilt :
      (loads : List Bool) (s : System os F)
      → IsBuilt P true T (all_parts F) s
      → Returns (unified_update_loop loads s) (λ _ t. IsBuilt P true T (all_parts F) t)
  unfolding unified_update_loop
  unified_update_loop-IsBuilt loads s h = updates_from-IsWhole motor_next loads s h
