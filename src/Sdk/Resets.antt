-- ===== src/Sdk/Resets.antt =====
-- The resets of the parts in `GloveSDK::cleanup_resources`, src/glove_sdk.cpp.
use joyson_glove_sdk.Prelude.{
  ℕ, ◌≡◌, refl, Bool, true, false, is_some, Each, Option, none, some, if◌then◌else◌,
}
use joyson_glove_sdk.Prelude.Float.{Float}
use joyson_glove_sdk.Prelude.State.{
  State, pure, ◌>>◌, Returns, Returns->>=, Returns-if, Returns-mono,
}
use joyson_glove_sdk.Udp.Os.{Os}
use joyson_glove_sdk.Udp.Sockets.{SocketLaws, IsValid}
use joyson_glove_sdk.Device.{UpdateThread}
use joyson_glove_sdk.Device.Keeps.{stop_thread-IsSound}
use joyson_glove_sdk.Motor.{stop_status_update_thread}
use joyson_glove_sdk.Motor.Keeps.{IsController}
use joyson_glove_sdk.Encoder
use joyson_glove_sdk.Encoder.Keeps as EncoderKeeps
use joyson_glove_sdk.Imu
use joyson_glove_sdk.Imu.Keeps as ImuKeeps
use joyson_glove_sdk.Sdk.{reset_imu, reset_encoder, reset_motor}
use joyson_glove_sdk.Sdk.Parts.{GloveSdk, System, on_sdk, on_motor, on_encoder, on_imu}
use joyson_glove_sdk.Sdk.Reach.{Has}
use joyson_glove_sdk.Sdk.Stable.{sockets_stable}
use joyson_glove_sdk.Sdk.States.{
  Demands, IsBuilt, IsSoundMotor, IsSoundEncoder, IsSoundImu, IsBuilt-mono, motor_config,
  encoder_config, imu_config, on_motor-IsBuilt, on_encoder-IsBuilt, on_imu-IsBuilt,
}

is_some-Has : {A : Type 0} (P : A → Type 0) (o : Option A) → Each P o → is_some o ≡ true → Has P o
is_some-Has P none h e = cc
is_some-Has P (some a) h e = h

module _ {os : Os} {F : Type 0} ⦃fl : Float F⦄ (laws : SocketLaws os) (others : ℕ → Bool)
    (flag : Bool) (T : UpdateThread → Type 0) (D : Demands F) where
  abbrev Built : Demands F → System os F → Type 0
  Built = IsBuilt (IsValid laws others) flag T

  -- A part that is there is stopped, and its pointer is cleared.
  reset-Returns :
      (there : Bool) (stop : State (System os F) (Unit {0})) (clear : GloveSdk F → GloveSdk F)
      (A B : System os F → Type 0) (s : System os F)
      → (there ≡ true → Returns (stop s) (λ _ t. A t))
      → (there ≡ false → A s)
      → ((t : System os F) → A t → B (record t { sdk = clear t.sdk }))
      → Returns (((if there then stop else pure tt) >> on_sdk clear) s) (λ _ t. B t)
  reset-Returns there stop clear A B s h k cleared =
      Returns->>= (if there then stop else pure tt) _ (λ _ t. A t) _ s
        (Returns-if there stop (pure tt) _ s h k) (λ _ t a. cleared t a)

  pub reset_imu-Built :
      (s : System os F)
      → Built (record D { imu = Each IsSoundImu }) s
      → Returns (reset_imu s) (λ _ t. Built (record D { imu = λ o. o ≡ none }) t)
  unfolding reset_imu Imu.stop_update_thread
  reset_imu-Built s h =
      reset-Returns (is_some s.sdk.imu_reader) (on_imu Imu.stop_update_thread) _
        (Built (record D { imu = λ _. Unit {0} })) (Built (record D { imu = λ o. o ≡ none })) s
        (λ e.
          Returns-mono (on_imu Imu.stop_update_thread s) _ _
            (on_imu-IsBuilt (IsValid laws others) flag T D Imu.stop_update_thread (λ _. Unit {0}) s
              (record {
                initialized = h.initialized;
                thread = h.thread;
                client = h.client;
                motor = h.motor;
                encoder = h.encoder;
                imu = is_some-Has IsSoundImu s.sdk.imu_reader h.imu e;
              })
              (λ d k.
                Returns-mono (Imu.stop_update_thread d) _ _
                  (stop_thread-IsSound (ImuKeeps.IsReader imu_config) (sockets_stable laws others) d
                    k)
                  (λ _ t k. (k.0, tt))))
            (λ _ t k.
              IsBuilt-mono (IsValid laws others) flag T _ (record D { imu = λ _. Unit {0} }) t
                (λ _ m. m) (λ _ m. m) (λ _ _. tt) (k.0)))
        (λ e.
          IsBuilt-mono (IsValid laws others) flag T _ (record D { imu = λ _. Unit {0} }) s
            (λ _ m. m) (λ _ m. m) (λ _ _. tt) h)
        (λ t a. record {
          initialized = a.initialized;
          thread = a.thread;
          client = a.client;
          motor = a.motor;
          encoder = a.encoder;
          imu = refl;
        })

  pub reset_encoder-Built :
      (s : System os F)
      → Built (record D { encoder = Each IsSoundEncoder }) s
      → Returns (reset_encoder s) (λ _ t. Built (record D { encoder = λ o. o ≡ none }) t)
  unfolding reset_encoder Encoder.stop_update_thread
  reset_encoder-Built s h =
      reset-Returns (is_some s.sdk.encoder_reader) (on_encoder Encoder.stop_update_thread) _
        (Built (record D { encoder = λ _. Unit {0} }))
        (Built (record D { encoder = λ o. o ≡ none })) s
        (λ e.
          Returns-mono (on_encoder Encoder.stop_update_thread s) _ _
            (on_encoder-IsBuilt (IsValid laws others) flag T D Encoder.stop_update_thread
              (λ _. Unit {0}) s
              (record {
                initialized = h.initialized;
                thread = h.thread;
                client = h.client;
                motor = h.motor;
                imu = h.imu;
                encoder = is_some-Has IsSoundEncoder s.sdk.encoder_reader h.encoder e;
              })
              (λ d k.
                Returns-mono (Encoder.stop_update_thread d) _ _
                  (stop_thread-IsSound (EncoderKeeps.IsReader encoder_config)
                    (sockets_stable laws others) d k)
                  (λ _ t k. (k.0, tt))))
            (λ _ t k.
              IsBuilt-mono (IsValid laws others) flag T _ (record D { encoder = λ _. Unit {0} }) t
                (λ _ m. m) (λ _ _. tt) (λ _ m. m) (k.0)))
        (λ e.
          IsBuilt-mono (IsValid laws others) flag T _ (record D { encoder = λ _. Unit {0} }) s
            (λ _ m. m) (λ _ _. tt) (λ _ m. m) h)
        (λ t a. record {
          initialized = a.initialized;
          thread = a.thread;
          client = a.client;
          motor = a.motor;
          imu = a.imu;
          encoder = refl;
        })

  pub reset_motor-Built :
      (s : System os F)
      → Built (record D { motor = Each IsSoundMotor }) s
      → Returns (reset_motor s) (λ _ t. Built (record D { motor = λ o. o ≡ none }) t)
  unfolding reset_motor stop_status_update_thread
  reset_motor-Built s h =
      reset-Returns (is_some s.sdk.motor_controller) (on_motor stop_status_update_thread) _
        (Built (record D { motor = λ _. Unit {0} })) (Built (record D { motor = λ o. o ≡ none })) s
        (λ e.
          Returns-mono (on_motor stop_status_update_thread s) _ _
            (on_motor-IsBuilt (IsValid laws others) flag T D stop_status_update_thread
              (λ _. Unit {0}) s
              (record {
                initialized = h.initialized;
                thread = h.thread;
                client = h.client;
                encoder = h.encoder;
                imu = h.imu;
                motor = is_some-Has IsSoundMotor s.sdk.motor_controller h.motor e;
              })
              (λ d k.
                Returns-mono (stop_status_update_thread d) _ _
                  (stop_thread-IsSound (IsController motor_config) (sockets_stable laws others) d k)
                  (λ _ t k. (k.0, tt))))
            (λ _ t k.
              IsBuilt-mono (IsValid laws others) flag T _ (record D { motor = λ _. Unit {0} }) t
                (λ _ _. tt) (λ _ m. m) (λ _ m. m) (k.0)))
        (λ e.
          IsBuilt-mono (IsValid laws others) flag T _ (record D { motor = λ _. Unit {0} }) s
            (λ _ _. tt) (λ _ m. m) (λ _ m. m) h)
        (λ t a. record {
          initialized = a.initialized;
          thread = a.thread;
          client = a.client;
          encoder = a.encoder;
          imu = a.imu;
          motor = refl;
        })
