-- ===== src/Sdk/Served/Initialize.antt =====
-- `GloveSDK::initialize`, src/glove_sdk.cpp, where every call of the system succeeds and the board
-- answers every request.
use joyson_glove_sdk.Prelude.{◌≡◌, refl, sym, ◌∙◌, subst, Bool, true, false, not, none, some}
use joyson_glove_sdk.Prelude.Float.{Float}
use joyson_glove_sdk.Prelude.State.{pure, ◌>>=◌, Returns, Returns->>=, Returns-then, Returns-if}
use joyson_glove_sdk.Udp.Os.{Os}
use joyson_glove_sdk.Udp.Client.{Link, udp_client, connect}
use joyson_glove_sdk.Udp.Board.{Board}
use joyson_glove_sdk.Udp.Opening.{Opens, connect-Waits}
use joyson_glove_sdk.Device.{UpdateThread, returned, threw, start_result, no_thread}
use joyson_glove_sdk.Device.Replies.{Replies}
use joyson_glove_sdk.Motor.{MotorController}
use joyson_glove_sdk.Encoder.{EncoderReader}
use joyson_glove_sdk.Imu.{ImuReader}
use joyson_glove_sdk.Sdk.{
  udp_config, reset_client, create_motor, create_encoder, create_imu, require, fail, start,
  ensure_initialized, initialized, initialize,
}
use joyson_glove_sdk.Sdk.Parts.{Part, GloveConfig, glove_sdk, System}
use joyson_glove_sdk.Sdk.Served.{
  partial, IsUp, on_client-then, IsFree, create_motor-then, create_encoder-then, create_imu-then,
}

module _ {os : Os} {F : Type 0} ⦃fl : Float F⦄ {board : Board os} (replies : Replies F board)
    (config : GloveConfig) where
  module _ (opens : Opens board) where
    -- The SDK with all its parts, and with such a flag and such a thread.
    abbrev whole :
        Part MotorController
        → Part (EncoderReader F)
        → Part (ImuReader F)
        → UpdateThread
        → Link os
        → System os F
    whole p q r thread l = record {
      sdk = record (partial config (some p) (some q) (some r) l).sdk {
        initialized = true;
        thread = thread;
      };
      world = l.world;
    }

    whole-IsUp :
        (p : Part MotorController) (q : Part (EncoderReader F)) (r : Part (ImuReader F))
        (thread : UpdateThread) (l : Link os)
        → IsFree replies config l
        → thread.running ≡ config.auto_start_thread
        → IsUp config board (returned true) (whole p q r thread l)
    whole-IsUp p q r thread l h e = record {
      done = refl;
      initialized = refl;
      running = e;
      client = h;
      motor = refl;
      encoder = refl;
      imu = refl;
    }

    start-IsUp :
        (p : Part MotorController) (q : Part (EncoderReader F)) (r : Part (ImuReader F))
        (l : Link os)
        → IsFree replies config l
        → true ≡ config.auto_start_thread
        → Returns
            (start (whole p q r no_thread l))
            (λ o t. (o ≡ returned tt) × IsUp config board (returned true) t)
    unfolding start ensure_initialized
    start-IsUp p q r l h e =
        Returns-if (not ((os.start_thread l.world).0)) (pure threw) _
          (λ o t. (o ≡ returned tt) × IsUp config board (returned true) t)
          (whole p q r (record { running = true; joinable = false }) started)
          (λ f. absurd (is_started f))
          (λ _. (
            refl,
            whole-IsUp p q r (record { running = true; joinable = true }) started
                (record {
                  connected = h.connected;
                  waiting = opens.start_thread-waiting l.world ∙ h.waiting;
                })
                e,
          ))
      where
        started : Link os
        started = record l { world = (os.start_thread l.world).1 }

        is_started : ¬ (not ((os.start_thread l.world).0) ≡ true)
        is_started e = let done = opens.start_thread-done l.world in cc

    initialized-IsUp :
        (p : Part MotorController) (q : Part (EncoderReader F)) (r : Part (ImuReader F))
        (l : Link os)
        → IsFree replies config l
        → Returns (initialized (partial config (some p) (some q) (some r) l)) (IsUp config board)
    unfolding initialized
    initialized-IsUp p q r l h =
        Returns-if (not config.auto_start_thread) (pure (returned true))
          (start >>= λ started. pure (start_result started)) (IsUp config board)
          (whole p q r no_thread l)
          (λ e. whole-IsUp p q r no_thread l h (manual config.auto_start_thread e))
          (λ e.
            Returns->>= start (λ started. pure (start_result started))
              (λ o t. (o ≡ returned tt) × IsUp config board (returned true) t) (IsUp config board)
              (whole p q r no_thread l) (start-IsUp p q r l h (auto config.auto_start_thread e))
              (λ o t k. subst (λ o. IsUp config board (start_result o) t) (sym (k.0)) (k.1)))
      where
        manual : (b : Bool) → not b ≡ true → false ≡ b
        manual false e = refl
        manual true e = cc

        auto : (b : Bool) → not b ≡ false → true ≡ b
        auto false e = cc
        auto true e = refl

    -- Where every call of the system succeeds, the server's address is one, and the board answers every
    -- request, with readings where sensors are read: `initialize` of a new SDK of any configuration in
    -- any world returns `true`. Then the SDK is initialized and has all its parts, its update thread
    -- runs exactly if the configuration says so, and nothing waits in the socket.
    pub initialize-IsUp :
        (w : os.World)
        → os.is_address config.server_ip ≡ true
        → Returns
            (initialize (record { sdk = glove_sdk {F = F} config; world = w }))
            (IsUp config board)
    unfolding initialize reset_client glove_sdk udp_config require
    initialize-IsUp w address =
        on_client-then
          (λ l. (os.is_address l.client.config.server_ip ≡ true) × (l.client.connected ≡ false))
          connect _ (λ done t. (done ≡ true) × IsFree replies config t) (IsUp config board)
          (partial config none none none
            (record { client = udp_client (udp_config config); world = w }))
          (address, refl) (λ l h. connect-Waits opens l (h.0) (h.1))
          (λ done l k.
            Returns-if (not done) fail _ (IsUp config board) (partial config none none none l)
              (λ e. absurd (is_done (k.0) e)) (λ _. created l (k.1)))
      where
        is_done : {done : Bool} → done ≡ true → ¬ (not done ≡ true)
        is_done e f = cc

        created :
            (l : Link os)
            → IsFree replies config l
            → Returns
                ((create_motor {F = F} >>= λ motor. require motor (
                    create_encoder >>= λ encoder.
                    require encoder (create_imu >>= λ imu. require imu initialized)))
                  (partial config none none none l))
                (IsUp config board)
        created l h =
            Returns-then (create_motor {F = F}) _ (IsUp config board)
              (partial config none none none l)
              (create_motor-then replies config _ l h (λ p l h.
                Returns-then (create_encoder {F = F}) _ (IsUp config board)
                  (partial config (some p) none none l)
                  (create_encoder-then replies config _ (some p) l h (λ q l h.
                    Returns-then (create_imu {F = F}) _ (IsUp config board)
                      (partial config (some p) (some q) none l)
                      (create_imu-then replies config _ (some p) (some q) l h
                        (λ r l h. initialized-IsUp p q r l h))))))
