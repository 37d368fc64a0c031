-- ===== src/Sdk/Served.antt =====
-- The steps of `GloveSDK::initialize`, src/glove_sdk.cpp, with a board that answers every request.
pub mod Initialize
use joyson_glove_sdk.Prelude.{
  ◌≡◌, refl, sym, ap, ◌∙◌, subst, Bool, true, false, not, is_some, Option, none, some, [],
}
use joyson_glove_sdk.Prelude.Float.{Float}
use joyson_glove_sdk.Prelude.State.{
  State, pure, ◌>>=◌, Returns, Returns->>=, Returns-then, Returns-if, Returns-mono,
}
use joyson_glove_sdk.Udp.Os.{Os}
use joyson_glove_sdk.Udp.Client.{Link, udp_client, connect}
use joyson_glove_sdk.Udp.Board.{Board, Waits}
use joyson_glove_sdk.Udp.Opening.{Opens, connect-Waits}
use joyson_glove_sdk.Device.{
  Device, UpdateThread, Outcome, returned, threw, start_result, no_thread,
}
use joyson_glove_sdk.Device.Replies.{Replies}
use joyson_glove_sdk.Motor
use joyson_glove_sdk.Motor.{MotorController}
use joyson_glove_sdk.Motor.Served as MotorServed
use joyson_glove_sdk.Encoder
use joyson_glove_sdk.Encoder.{EncoderReader}
use joyson_glove_sdk.Encoder.Served as EncoderServed
use joyson_glove_sdk.Imu
use joyson_glove_sdk.Imu.{ImuReader}
use joyson_glove_sdk.Imu.Served as ImuServed
use joyson_glove_sdk.Sdk.{
  udp_config, reset_client, reset_motor, reset_encoder, reset_imu, create_motor, create_encoder,
  create_imu, require, fail, start, ensure_initialized, initialized, initialize,
}
use joyson_glove_sdk.Sdk.Parts.{
  Part, GloveConfig, GloveSdk, glove_sdk, System, on_client, on_part, on_motor, on_encoder, on_imu,
}
use joyson_glove_sdk.Sdk.Reach.{
  Has, IsSoundPart, HasClient, with_link, on_client-Returns, on_part-Returns,
}
use joyson_glove_sdk.Sdk.States.{motor_config, encoder_config, imu_config}
use joyson_glove_sdk.Sdk.Creation.{motor_controller-IsController}

module _ {os : Os} {F : Type 0} (config : GloveConfig) where
  -- The SDK on the way through `initialize`, with its client.
  abbrev pub partial :
      Option (Part MotorController)
      → Option (Part (EncoderReader F))
      → Option (Part (ImuReader F))
      → Link os
      → System os F
  partial motor encoder imu l = record {
    sdk = record {
      config = config;
      initialized = false;
      thread = no_thread;
      udp_client = some l.client;
      motor_controller = motor;
      encoder_reader = encoder;
      imu_reader = imu;
    };
    world = l.world;
  }

  -- The SDK is initialized, its update thread runs if it is to, and nothing waits in its socket.
  pub record IsUp (board : Board os) (r : Outcome Bool) (s : System os F) : Type 0 where
    pub done : r ≡ returned true
    pub initialized : s.sdk.initialized ≡ true
    pub running : s.sdk.thread.running ≡ config.auto_start_thread
    pub client : HasClient (Waits board []) s
    pub motor : is_some s.sdk.motor_controller ≡ true
    pub encoder : is_some s.sdk.encoder_reader ≡ true
    pub imu : is_some s.sdk.imu_reader ≡ true

module _ {os : Os} {F : Type 0} where
  -- A method of the client, and what comes behind it.
  pub on_client-then :
      {A B : Type 0} (P : Link os → Type 0) (m : State (Link os) A) (f : A → State (System os F) B)
      (X : A → Link os → Type 0) (T : B → System os F → Type 0) (s : System os F)
      → HasClient P s
      → ((l : Link os) → P l → Returns (m l) X)
      → ((a : A) (l : Link os) → X a l → Returns (f a (with_link P s l)) T)
      → Returns ((on_client m >>= f) s) T
  on_client-then P m f X T s h k next =
      Returns-then (on_client m) f T s
        (on_client-Returns P m X (λ a t. Returns (f a t) T) s h k next)

module _ {os : Os} {F : Type 0} ⦃fl : Float F⦄ {board : Board os} (replies : Replies F board)
    (config : GloveConfig) where
  -- A client with nothing in its socket.
  abbrev pub IsFree : Link os → Type 0
  IsFree = Waits board []

  tick-IsFree : (l : Link os) → IsFree l → IsFree (record l { world = (os.steady_now l.world).1 })
  tick-IsFree l h = record {
    connected = h.connected;
    waiting = board.steady_now-waiting l.world ∙ h.waiting;
  }

  -- The `initialize` of a part that is there and has no thread, with a board that answers.
  initialize_part-then :
      {C : Type 0} (part : GloveSdk F → Option (Part C)) (put : Part C → GloveSdk F → GloveSdk F)
      (init : State (Device os C) (Outcome Bool)) (auto : C → Bool)
      (T : Outcome Bool → System os F → Type 0) (s : System os F)
      → Has (IsSoundPart (λ c. auto c ≡ false)) (part s.sdk)
      → HasClient IsFree s
      → ((d : Device os C)
          → auto d.object ≡ false
          → IsFree d.link
          → Returns (init d) (λ r t.
            (r ≡ returned true) × IsFree t.link × (auto t.object ≡ false) × (t.thread ≡ d.thread)))
      → ((p : Part C) (t : Link os)
          → IsFree t
          → T (returned true) (record {
            sdk = put p (record s.sdk { udp_client = some t.client });
            world = t.world;
          }))
      → Returns (on_part part put init s) T
  initialize_part-then part put init auto T s there free k next =
      on_part-Returns IsFree part put init (λ c. auto c ≡ false) (λ r _. r ≡ returned true) T s
        there free
        (λ d sound. Returns-mono (init d) _ _ (k d sound.object sound.link) (λ r u m. (
          record {
            link = m.1;
            object = m.2;
            thread = ap (λ t. t.joinable) (m.3) ∙ sound.thread ∙ sym (ap (λ t. t.running) (m.3));
          },
          m.0,
        )))
        (λ r d sound e.
          subst
            (λ r. T r (record {
              sdk =
                  put (record { object = d.object; thread = d.thread })
                    (record s.sdk { udp_client = some d.link.client });
              world = d.link.world;
            }))
            (sym e) (next (record { object = d.object; thread = d.thread }) d.link sound.link))

  pub create_motor-then :
      (T : Outcome Bool → System os F → Type 0) (l : Link os)
      → IsFree l
      → ((p : Part MotorController) (t : Link os)
          → IsFree t
          → T (returned true) (partial config (some p) none none t))
      → Returns (create_motor (partial config none none none l)) T
  unfolding create_motor reset_motor on_motor
  create_motor-then T l h next =
      on_client-then IsFree (Motor.motor_controller motor_config) _
        (λ c t. IsFree t × (c.config.auto_start_thread ≡ false)) T (partial config none none none l)
        h
        (λ l h.
          Returns-mono (Motor.motor_controller motor_config l) _ _
            (motor_controller-IsController IsFree tick-IsFree l h)
            (λ c t k. (k.0, ap (λ c. c.auto_start_thread) (k.1.same))))
        (λ c t k.
          initialize_part-then (λ (s : GloveSdk F). s.motor_controller)
            (λ p s. record s { motor_controller = some p }) Motor.initialize
            (λ c. c.config.auto_start_thread) T
            (partial config (some (record { object = c; thread = no_thread })) none none t)
            (record { object = k.1; thread = refl }) (k.0) (MotorServed.initialize-IsServed replies)
            next)

  pub create_encoder-then :
      (T : Outcome Bool → System os F → Type 0) (motor : Option (Part MotorController))
      (l : Link os)
      → IsFree l
      → ((p : Part (EncoderReader F)) (t : Link os)
          → IsFree t
          → T (returned true) (partial config motor (some p) none t))
      → Returns (create_encoder (partial config motor none none l)) T
  unfolding create_encoder reset_encoder on_encoder Encoder.encoder_reader
  create_encoder-then T motor l h next =
      on_client-then IsFree (Encoder.encoder_reader encoder_config) _
        (λ (c : EncoderReader F) t. IsFree t × (c.config.auto_start_thread ≡ false)) T
        (partial config motor none none l) h (λ l h. (tick-IsFree l h, refl))
        (λ c t k.
          initialize_part-then (λ (s : GloveSdk F). s.encoder_reader)
            (λ p s. record s { encoder_reader = some p }) Encoder.initialize
            (λ c. c.config.auto_start_thread) T
            (partial config motor (some (record { object = c; thread = no_thread })) none t)
            (record { object = k.1; thread = refl }) (k.0)
            (EncoderServed.initialize-IsServed replies) next)

  pub create_imu-then :
      (T : Outcome Bool → System os F → Type 0) (motor : Option (Part MotorController))
      (encoder : Option (Part (EncoderReader F))) (l : Link os)
      → IsFree l
      → ((p : Part (ImuReader F)) (t : Link os)
          → IsFree t
          → T (returned true) (partial config motor encoder (some p) t))
      → Returns (create_imu (partial config motor encoder none l)) T
  unfolding create_imu reset_imu on_imu Imu.imu_reader
  create_imu-then T motor encoder l h next =
      on_client-then IsFree (Imu.imu_reader imu_config) _
        (λ (c : ImuReader F) t. IsFree t × (c.config.auto_start_thread ≡ false)) T
        (partial config motor encoder none l) h (λ l h. (tick-IsFree l h, refl))
        (λ c t k.
          initialize_part-then (λ (s : GloveSdk F). s.imu_reader)
            (λ p s. record s { imu_reader = some p }) Imu.initialize
            (λ c. c.config.auto_start_thread) T
            (partial config motor encoder (some (record { object = c; thread = no_thread })) t)
            (record { object = k.1; thread = refl }) (k.0) (ImuServed.initialize-IsServed replies)
            next)
