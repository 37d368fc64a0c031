-- ===== src/Sdk/Initialize.antt =====
-- `GloveSDK::initialize` and `start` of src/glove_sdk.cpp.
use joyson_glove_sdk.Prelude.{
  ℕ, ◌≡◌, refl, sym, ap, ◌∙◌, Bool, true, false, not, Each, is_some, Option, none, some,
  if◌then◌else◌,
}
use joyson_glove_sdk.Prelude.Float.{Float}
use joyson_glove_sdk.Prelude.State.{
  State, pure, ◌>>=◌, Returns, Returns->>=, Returns-if, Returns-mono,
}
use joyson_glove_sdk.Udp.Os.{Os}
use joyson_glove_sdk.Udp.Client.{UdpClient, udp_client, connect, disconnect}
use joyson_glove_sdk.Udp.Sockets.{SocketLaws, IsValid}
use joyson_glove_sdk.Udp.Sockets.Connect.{connect-IsValid}
use joyson_glove_sdk.Device.{UpdateThread, no_thread, Outcome, returned, threw, start_result}
use joyson_glove_sdk.Sdk.{
  create_motor, create_encoder, create_imu, require, initialized, start, fail, initialize,
  cleanup_resources, reset_client, udp_config,
}
use joyson_glove_sdk.Sdk.Parts.{System, on_client}
use joyson_glove_sdk.Sdk.Reach.{Has, on_client-Returns}
use joyson_glove_sdk.Sdk.States.{Demands, IsBuilt-mono, IsSoundMotor, IsSoundEncoder, IsSoundImu}
use joyson_glove_sdk.Sdk.Lifecycle.{
  some_parts, all_parts, no_parts, IsIdle, IsReady, IsPartial, cleanup_resources-IsIdle,
}
use joyson_glove_sdk.Sdk.Creation.{
  IsReturned, Has-Each, none-Each, create_motor-Partial, create_encoder-Partial, create_imu-Partial,
}
use joyson_glove_sdk.Sdk.Start.{start-IsReady}

module _ {os : Os} {F : Type 0} ⦃fl : Float F⦄ (laws : SocketLaws os) (others : ℕ → Bool) where
  -- The state after `initialize`, by its result.
  abbrev pub Initializes : Outcome Bool → System os F → Type 0
  Initializes (returned true) t = IsReady laws others t
  Initializes (returned false) t = IsIdle laws others t
  Initializes threw t = IsReady laws others t × (t.sdk.thread.running ≡ true)

  abbrev Partial : Demands F → System os F → Type 0
  Partial = IsPartial laws others

  fail-Initializes : (s : System os F) → Partial (some_parts F) s → Returns (fail s) Initializes
  unfolding fail
  fail-Initializes s h =
      Returns->>= cleanup_resources _ _ _ s (cleanup_resources-IsIdle laws others s h) (λ _ t k. k)

  -- A step of `initialize` and what is behind it.
  require-Initializes :
      (r : Outcome Bool) (rest : State (System os F) (Outcome Bool)) (D : Demands F)
      (s : System os F)
      → ((t : System os F) → Partial D t → Partial (some_parts F) t)
      → ((t : System os F) → Partial D t → Returns (rest t) Initializes)
      → Partial D s × IsReturned r
      → Returns (require r rest s) Initializes
  unfolding require
  require-Initializes (returned true) rest D s weak k h = k s (h.0)
  require-Initializes (returned false) rest D s weak k h = fail-Initializes s (weak s (h.0))
  require-Initializes threw rest D s weak k h = absurd (h.1)

  initialized-Initializes :
      (s : System os F) → Partial (all_parts F) s → Returns (initialized s) Initializes
  unfolding initialized
  initialized-Initializes s h =
      Returns-if (not s.sdk.config.auto_start_thread) _ _ _ _ (λ _. ready)
        (λ _.
          Returns->>= start _ _ Initializes _ (start-IsReady laws others _ ready)
            (λ r t k. started r t k))
    where
      ready : IsReady laws others (record s { sdk = record s.sdk { initialized = true } })
      ready = record {
        initialized = refl;
        thread = λ j. absurd (no_joinable s.sdk.thread h.thread j);
        client = h.client;
        motor = h.motor;
        encoder = h.encoder;
        imu = h.imu;
      }
        where
          no_joinable : (t : UpdateThread) → t ≡ no_thread → ¬ (t.joinable ≡ true)
          no_joinable t e j = not_true (sym (ap (λ t. t.joinable) e) ∙ j)
            where
              not_true : ¬ (false ≡ true)
              not_true e = cc

      started :
          (r : Outcome (Unit {0})) (t : System os F)
          → IsReady laws others t × (t.sdk.thread.running ≡ true)
          → Initializes (start_result r) t
      started (returned _) t k = k.0
      started threw t k = k

  -- Weakening of what is demanded: what is not there is no demand.
  pub some-of :
      (D : Demands F) (t : System os F)
      → ((o : _) → D.motor o → Each IsSoundMotor o)
      → ((o : _) → D.encoder o → Each IsSoundEncoder o)
      → ((o : _) → D.imu o → Each IsSoundImu o)
      → Partial D t
      → Partial (some_parts F) t
  some-of D t = IsBuilt-mono (IsValid laws others) false (λ t. t ≡ no_thread) D (some_parts F) t

  imu_step-Initializes :
      (s : System os F)
      → Partial (record (all_parts F) { imu = λ o. o ≡ none }) s
      → Returns ((create_imu >>= λ imu. require imu initialized) s) Initializes
  imu_step-Initializes s h =
      Returns->>= create_imu _ _ _ s (create_imu-Partial laws others (all_parts F) s h) (λ r t k.
        require-Initializes r initialized (all_parts F) t
          (λ u.
            some-of (all_parts F) u (λ o. Has-Each IsSoundMotor o) (λ o. Has-Each IsSoundEncoder o)
              (λ o. Has-Each IsSoundImu o))
          initialized-Initializes k)

  encoder_step-Initializes :
      (s : System os F)
      → Partial (record (no_parts F) { motor = Has IsSoundMotor }) s
      → Returns
          ((create_encoder >>= λ encoder.
              require encoder (create_imu >>= λ imu. require imu initialized))
            s)
          Initializes
  encoder_step-Initializes s h =
      Returns->>= create_encoder _ _ _ s
        (create_encoder-Partial laws others (record (no_parts F) { motor = Has IsSoundMotor }) s h)
        (λ r t k.
          require-Initializes r _ (record (all_parts F) { imu = λ o. o ≡ none }) t
            (λ u.
              some-of (record (all_parts F) { imu = λ o. o ≡ none }) u
                (λ o. Has-Each IsSoundMotor o) (λ o. Has-Each IsSoundEncoder o)
                (λ o. none-Each IsSoundImu o))
            imu_step-Initializes k)

  motor_step-Initializes :
      (s : System os F)
      → Partial (no_parts F) s
      → Returns
          ((create_motor >>= λ motor. require motor (
              create_encoder >>= λ encoder.
              require encoder (create_imu >>= λ imu. require imu initialized)))
            s)
          Initializes
  motor_step-Initializes s h =
      Returns->>= create_motor _ _ _ s (create_motor-Partial laws others (no_parts F) s h) (λ r t k.
        require-Initializes r _ (record (no_parts F) { motor = Has IsSoundMotor }) t
          (λ u.
            some-of (record (no_parts F) { motor = Has IsSoundMotor }) u
              (λ o. Has-Each IsSoundMotor o) (λ o. none-Each IsSoundEncoder o)
              (λ o. none-Each IsSoundImu o))
          encoder_step-Initializes k)

  reset_client-IsIdle :
      (s : System os F)
      → IsIdle laws others s
      → Returns (reset_client s) (λ _ t. IsIdle laws others t)
  unfolding reset_client
  reset_client-IsIdle s h =
      Returns->>= (if is_some s.sdk.udp_client then on_client disconnect else pure tt) _
        (λ _ t. IsIdle laws others t) _ s
        (Returns-if (is_some s.sdk.udp_client) (on_client disconnect) (pure tt) _ s
          (λ e. absurd (no_client s.sdk.udp_client h.client e)) (λ _. h))
        (λ _ t k. record {
          initialized = k.initialized;
          thread = k.thread;
          client = refl;
          motor = k.motor;
          encoder = k.encoder;
          imu = k.imu;
          opened = k.opened;
        })
    where
      no_client : (o : Option UdpClient) → o ≡ none → ¬ (is_some o ≡ true)
      no_client none e f = cc
      no_client (some c) e f = cc

  -- From a state where nothing is there, `initialize` returns. With `true`, or when the update thread
  -- cannot be created, everything is there; with `false`, everything was taken back and nothing is
  -- there: no client, no part, and no descriptor that was not open before.
  pub initialize-Initializes :
      (s : System os F) → IsIdle laws others s → Returns (initialize s) Initializes
  unfolding initialize reset_client
  initialize-Initializes s h =
      Returns-if s.sdk.initialized _ _ _ s (λ e. absurd (not_initialized e))
        (λ _. Returns->>= reset_client _ _ Initializes s (reset_client-IsIdle s h) (λ _ t k.
          Returns->>= (on_client connect) _ (λ _ u. Partial (no_parts F) u) Initializes _
            (on_client-Returns (IsValid laws others) connect (λ _ l. IsValid laws others l)
              (λ _ u. Partial (no_parts F) u) _ (fresh t k)
              (λ l v. Returns-mono (connect l) _ _ (connect-IsValid laws others l v) (λ _ u w. w.0))
              (λ _ l v. record {
                initialized = k.initialized;
                thread = k.thread;
                client = v;
                motor = k.motor;
                encoder = k.encoder;
                imu = k.imu;
              }))
            (λ joined u k.
              Returns-if (not joined) fail _ Initializes u
                (λ _. fail-Initializes u (
                  some-of (no_parts F) u (λ o. none-Each IsSoundMotor o)
                    (λ o. none-Each IsSoundEncoder o) (λ o. none-Each IsSoundImu o) k))
                (λ _. motor_step-Initializes u k))))
    where
      not_initialized : ¬ (s.sdk.initialized ≡ true)
      not_initialized e = f (sym h.initialized ∙ e)
        where
          f : ¬ (false ≡ true)
          f e = cc

      fresh :
          (t : System os F)
          → IsIdle laws others t
          → IsValid laws others
              (record { client = udp_client (udp_config t.sdk.config); world = t.world })
      fresh t k = record {
        connected = refl;
        owned = record { fresh = λ m o. cc; opened = k.opened };
      }
