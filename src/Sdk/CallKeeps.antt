-- ===== src/Sdk/CallKeeps.antt =====
-- What a method of the client or of a part keeps of a `GloveSDK`, src/glove_sdk.cpp, where everything
-- is there.
use joyson_glove_sdk.Prelude.{ℕ, ◌≡◌, Bool, true, false}
use joyson_glove_sdk.Prelude.Float.{Float}
use joyson_glove_sdk.Prelude.State.{State, Returns, Returns-mono}
use joyson_glove_sdk.Udp.Os.{Os}
use joyson_glove_sdk.Udp.Client.{Link}
use joyson_glove_sdk.Udp.Sockets.{SocketLaws, IsValid}
use joyson_glove_sdk.Device.{UpdateThread, Device}
use joyson_glove_sdk.Device.Keeps.{IsSound}
use joyson_glove_sdk.Motor.{MotorController}
use joyson_glove_sdk.Motor.Keeps as MotorKeeps
use joyson_glove_sdk.Encoder
use joyson_glove_sdk.Encoder.Keeps as EncoderKeeps
use joyson_glove_sdk.Imu
use joyson_glove_sdk.Imu.Keeps as ImuKeeps
use joyson_glove_sdk.Sdk.Parts.{System, on_client, on_motor, on_encoder, on_imu}
use joyson_glove_sdk.Sdk.Reach.{on_client-Returns}
use joyson_glove_sdk.Sdk.Stable.{sockets_stable}
use joyson_glove_sdk.Sdk.States.{
  IsBuilt, motor_config, encoder_config, imu_config, on_motor-IsBuilt, on_encoder-IsBuilt,
  on_imu-IsBuilt,
}
use joyson_glove_sdk.Sdk.Lifecycle.{all_parts}

pub true_ne : ¬ (true ≡ false)
true_ne e = cc

module _ {os : Os} {F : Type 0} ⦃fl : Float F⦄ (laws : SocketLaws os) (others : ℕ → Bool) where
  -- Everything is there, and the thread of the SDK is in `T`.
  abbrev pub IsReadyWith : (UpdateThread → Type 0) → System os F → Type 0
  IsReadyWith T = IsBuilt (IsValid laws others) true T (all_parts F)

  -- Whatever is known of the thread, it stays so.
  abbrev pub KeepsReady : {A : Type 0} → State (System os F) A → Type 1
  KeepsReady m =
      (T : UpdateThread → Type 0) (s : System os F)
      → IsReadyWith T s
      → Returns (m s) (λ _ t. IsReadyWith T t)

  pub motor-KeepsReady :
      {A : Type 0} (m : State (Device os MotorController) A)
      → MotorKeeps.Keeps (sockets_stable laws others) motor_config m
      → KeepsReady (on_motor m)
  motor-KeepsReady m k T s h =
      Returns-mono (on_motor m s) _ _
        (on_motor-IsBuilt (IsValid laws others) true T (all_parts F) m (λ _. Unit {0}) s h
          (λ d sound. Returns-mono (m d) _ _ (k d sound) (λ _ t r. (r, tt))))
        (λ _ t r. r.0)

  pub encoder-KeepsReady :
      {A : Type 0} (m : State (Device os (Encoder.EncoderReader F)) A)
      → ((d : Device os (Encoder.EncoderReader F))
          → IsSound (IsValid laws others) (EncoderKeeps.IsReader encoder_config) d
          → Returns
              (m d)
              (λ _ t. IsSound (IsValid laws others) (EncoderKeeps.IsReader encoder_config) t))
      → KeepsReady (on_encoder m)
  encoder-KeepsReady m k T s h =
      Returns-mono (on_encoder m s) _ _
        (on_encoder-IsBuilt (IsValid laws others) true T (all_parts F) m (λ _. Unit {0}) s h
          (λ d sound. Returns-mono (m d) _ _ (k d sound) (λ _ t r. (r, tt))))
        (λ _ t r. r.0)

  pub imu-KeepsReady :
      {A : Type 0} (m : State (Device os (Imu.ImuReader F)) A)
      → ((d : Device os (Imu.ImuReader F))
          → IsSound (IsValid laws others) (ImuKeeps.IsReader imu_config) d
          → Returns (m d) (λ _ t. IsSound (IsValid laws others) (ImuKeeps.IsReader imu_config) t))
      → KeepsReady (on_imu m)
  imu-KeepsReady m k T s h =
      Returns-mono (on_imu m s) _ _
        (on_imu-IsBuilt (IsValid laws others) true T (all_parts F) m (λ _. Unit {0}) s h
          (λ d sound. Returns-mono (m d) _ _ (k d sound) (λ _ t r. (r, tt))))
        (λ _ t r. r.0)

  pub client-KeepsReady :
      {A : Type 0} (m : State (Link os) A)
      → ((l : Link os) → IsValid laws others l → Returns (m l) (λ _ t. IsValid laws others t))
      → KeepsReady (on_client m)
  client-KeepsReady m k T s h =
      on_client-Returns (IsValid laws others) m (λ _ l. IsValid laws others l) _ s h.client k
        (λ _ l v. record {
          initialized = h.initialized;
          thread = h.thread;
          client = v;
          motor = h.motor;
          encoder = h.encoder;
          imu = h.imu;
        })
