-- ===== src/Sdk/Start.antt =====
-- `start` of src/glove_sdk.cpp.
use joyson_glove_sdk.Prelude.{ℕ, ◌≡◌, refl, Bool, true, false, not, Option, none, some}
use joyson_glove_sdk.Prelude.Float.{Float}
use joyson_glove_sdk.Prelude.State.{Returns, Returns-if}
use joyson_glove_sdk.Udp.Os.{Os}
use joyson_glove_sdk.Udp.Client.{UdpClient}
use joyson_glove_sdk.Udp.Sockets.{SocketLaws, IsValid}
use joyson_glove_sdk.Device.{UpdateThread}
use joyson_glove_sdk.Sdk.{start, ensure_initialized}
use joyson_glove_sdk.Sdk.Parts.{System}
use joyson_glove_sdk.Sdk.Reach.{Has, HasClient}
use joyson_glove_sdk.Sdk.Stable.{sockets_stable}
use joyson_glove_sdk.Sdk.Lifecycle.{IsThread, IsReady}

module _ {os : Os} {F : Type 0} ⦃fl : Float F⦄ (laws : SocketLaws os) (others : ℕ → Bool) where
  HasClient-start :
      (s : System os F)
      → HasClient (IsValid laws others) s
      → HasClient (IsValid laws others) (record s { world = (os.start_thread s.world).1 })
  HasClient-start s = by_client s.sdk.udp_client
    where
      by_client :
          (o : Option UdpClient)
          → Has (λ (c : UdpClient). IsValid laws others (record { client = c; world = s.world })) o
          → Has
              (λ (c : UdpClient).
                IsValid laws others (record { client = c; world = (os.start_thread s.world).1 }))
              o
      by_client none h = h
      by_client (some c) h =
          (sockets_stable laws others).start (record { client = c; world = s.world }) h

  pub start-IsReady :
      (s : System os F)
      → IsReady laws others s
      → Returns (start s) (λ r t. IsReady laws others t × (t.sdk.thread.running ≡ true))
  unfolding start ensure_initialized
  start-IsReady s h =
      Returns-if (not s.sdk.initialized) _ _ _ s (λ e. absurd (is_initialized e))
        (λ _.
          Returns-if s.sdk.thread.running _ _ _ s (λ e. (h, e))
            (λ e.
              Returns-if (not ((os.start_thread s.world).0)) _ _ _ _
                (λ _. (with_thread (record s.sdk.thread { running = true }) (λ _. refl), refl))
                (λ _.
                  Returns-if s.sdk.thread.joinable _ _ _ _ (λ j. absurd (is_stopped (h.thread j) e))
                    (λ _. (
                      with_thread (record { running = true; joinable = true }) (λ _. refl),
                      refl,
                    )))))
    where
      is_initialized : ¬ (not s.sdk.initialized ≡ true)
      is_initialized e = cc

      is_stopped : s.sdk.thread.running ≡ true → ¬ (s.sdk.thread.running ≡ false)
      is_stopped e f = cc

      with_thread :
          (t : UpdateThread)
          → IsThread t
          → IsReady laws others
              (record { sdk = record s.sdk { thread = t }; world = (os.start_thread s.world).1 })
      with_thread t k = record {
        initialized = h.initialized;
        thread = k;
        client = HasClient-start s h.client;
        motor = h.motor;
        encoder = h.encoder;
        imu = h.imu;
      }
