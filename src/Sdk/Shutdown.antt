-- ===== src/Sdk/Shutdown.antt =====
-- `GloveSDK::shutdown` of src/glove_sdk.cpp.
use joyson_glove_sdk.Prelude.{ℕ, ◌≡◌, refl, Bool, true, false, not}
use joyson_glove_sdk.Prelude.Float.{Float}
use joyson_glove_sdk.Prelude.State.{Returns, Returns->>=, Returns-if}
use joyson_glove_sdk.Udp.Os.{Os}
use joyson_glove_sdk.Udp.Sockets.{SocketLaws, IsValid}
use joyson_glove_sdk.Device.{UpdateThread, no_thread}
use joyson_glove_sdk.Sdk.{stop, ensure_initialized, shutdown}
use joyson_glove_sdk.Sdk.Parts.{System}
use joyson_glove_sdk.Sdk.States.{IsBuilt, IsSoundMotor, IsSoundEncoder, IsSoundImu}
use joyson_glove_sdk.Sdk.Lifecycle.{all_parts, IsIdle, IsReady, cleanup_resources-IsIdle}
use joyson_glove_sdk.Sdk.Creation.{Has-Each}
use joyson_glove_sdk.Sdk.Initialize.{some-of}

module _ {os : Os} {F : Type 0} ⦃fl : Float F⦄ (laws : SocketLaws os) (others : ℕ → Bool) where
  -- `shutdown` returns from a state where everything is there to one where nothing is, and leaves just
  -- the descriptors open that are not the client's.
  pub shutdown-IsIdle :
      (s : System os F) → IsReady laws others s → Returns (shutdown s) (λ _ t. IsIdle laws others t)
  unfolding shutdown ensure_initialized stop
  shutdown-IsIdle s h =
      Returns-if (not s.sdk.initialized) _ _ _ s (λ e. absurd (is_initialized e))
        (λ _.
          Returns->>= stop _ (λ _ t. Stopped t) _ s
            (Returns-if (not s.sdk.thread.running) _ _ (λ _ t. Stopped t) s
              (λ e.
                stopped s.sdk.thread
                  (not_running s.sdk.thread.running s.sdk.thread.joinable h.thread e))
              (λ _. stopped no_thread refl))
            (λ _ t k. cleanup_resources-IsIdle laws others _ (
              some-of laws others (all_parts F)
                (record t { sdk = record t.sdk { initialized = false } })
                (λ o. Has-Each IsSoundMotor o) (λ o. Has-Each IsSoundEncoder o)
                (λ o. Has-Each IsSoundImu o)
                (record {
                  initialized = refl;
                  thread = k.thread;
                  client = k.client;
                  motor = k.motor;
                  encoder = k.encoder;
                  imu = k.imu;
                }))))
    where
      is_initialized : ¬ (not s.sdk.initialized ≡ true)
      is_initialized e = cc

      not_true : ¬ (false ≡ true)
      not_true e = cc

      Stopped : System os F → Type 0
      Stopped = IsBuilt (IsValid laws others) true (λ t. t ≡ no_thread) (all_parts F)

      not_running :
          (r j : Bool)
          → (j ≡ true → r ≡ true)
          → not r ≡ true
          → record { running = r; joinable = j } ≡ no_thread
      not_running true j k e = cc
      not_running false true k e = absurd (not_true (k refl))
      not_running false false k e = refl

      stopped :
          (t : UpdateThread)
          → t ≡ no_thread
          → Stopped (record s { sdk = record s.sdk { thread = t } })
      stopped t e = record {
        initialized = h.initialized;
        thread = e;
        client = h.client;
        motor = h.motor;
        encoder = h.encoder;
        imu = h.imu;
      }
