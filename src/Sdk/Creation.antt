-- ===== src/Sdk/Creation.antt =====
-- The steps of `GloveSDK::initialize` that create the parts, src/glove_sdk.cpp.
use joyson_glove_sdk.Prelude.{
  ℕ, ◌<◌, zero, suc, ◌+◌, ◌^◌, ◌≡◌, arith, refl, sym, ap, subst, ◌⊎◌, inl, inr, Bool, false, Each,
  All-replicate, Option, none, some, length,
}
use joyson_glove_sdk.Prelude.Float.{Float}
use joyson_glove_sdk.Prelude.State.{Returns, Returns->>=, Returns-mono}
use joyson_glove_sdk.Udp.Os.{Os}
use joyson_glove_sdk.Udp.Client.{Link}
use joyson_glove_sdk.Udp.Sockets.{SocketLaws, IsValid}
use joyson_glove_sdk.Device.{no_thread, Device, Outcome, returned, threw}
use joyson_glove_sdk.Sdk.{reset_imu, reset_encoder, reset_motor}
use joyson_glove_sdk.Sdk.Parts.{System, on_client}
use joyson_glove_sdk.Sdk.Reach.{Has, on_client-Returns}
use joyson_glove_sdk.Sdk.Stable.{sockets_stable}
use joyson_glove_sdk.Sdk.States.{
  Demands, IsSoundMotor, IsSoundEncoder, IsSoundImu, motor_config, encoder_config, imu_config,
  on_motor-IsBuilt, on_encoder-IsBuilt, on_imu-IsBuilt,
}
use joyson_glove_sdk.Sdk.Resets.{reset_imu-Built, reset_encoder-Built, reset_motor-Built}
use joyson_glove_sdk.Sdk.Lifecycle.{IsPartial}
use joyson_glove_sdk.Device.Keeps.{Starts}
use joyson_glove_sdk.Motor
use joyson_glove_sdk.Motor.Keeps.{IsController}
use joyson_glove_sdk.Motor.Updates as MotorUpdates
use joyson_glove_sdk.Encoder
use joyson_glove_sdk.Encoder.Keeps as EncoderKeeps
use joyson_glove_sdk.Imu
use joyson_glove_sdk.Imu.Keeps as ImuKeeps
use joyson_glove_sdk.Sdk.{create_motor, create_encoder, create_imu}

-- No exception.
abbrev pub IsReturned : Outcome Bool → Type 0
IsReturned (returned b) = Unit
IsReturned threw = ⊥

Starts-IsReturned :
    {os : Os} {C : Type 0} (r : Outcome Bool) (d : Device os C)
    → (r ≡ returned false) ⊎ Starts false r d
    → IsReturned r
Starts-IsReturned (returned b) d h = tt
Starts-IsReturned threw d (inl e) = cc
Starts-IsReturned threw d (inr (e, stopped, w, fails, last)) = cc

without_reason :
    {os : Os} {C : Type 0} {R : Type 0} (r : Outcome Bool) (d : Device os C)
    → ((r ≡ returned false) × R) ⊎ Starts false r d
    → (r ≡ returned false) ⊎ Starts false r d
without_reason r d (inl (e, _)) = inl e
without_reason r d (inr s) = inr s

module _ {os : Os} (P : Link os → Type 0)
    (tick : (l : Link os) → P l → P (record l { world = (os.steady_now l.world).1 })) where
  initial_statuses-length :
      (i rounds : ℕ) (l : Link os)
      → P l
      → Returns (Motor.initial_statuses i rounds l) (λ xs t. P t × (length xs ≡ rounds))
  unfolding Motor.initial_statuses
  initial_statuses-length i zero l p = (p, refl)
  initial_statuses-length i (suc rounds) l p =
      Returns->>= (Motor.initial_statuses (i + 1) rounds) _ _ _ _
        (initial_statuses-length (i + 1) rounds _ (tick l p)) (λ xs t k. (k.0, ap suc (k.1)))

  pub motor_controller-IsController :
      (l : Link os)
      → P l
      → Returns (Motor.motor_controller motor_config l) (λ c t. P t × IsController motor_config c)
  unfolding Motor.motor_controller
  motor_controller-IsController l p =
      Returns->>= (Motor.initial_statuses 0 6) _ _ _ l (initial_statuses-length 0 6 l p)
        (λ xs t k. (k.0, record { same = refl; slots = k.1 }))

pub Has-Each : {A : Type 0} (P : A → Type 0) (o : Option A) → Has P o → Each P o
Has-Each P none h = absurd h
Has-Each P (some a) h = h

pub none-Each : {A : Type 0} (H : A → Type 0) (o : Option A) → o ≡ none → Each H o
none-Each H o e = subst (Each H) (sym e) tt

module _ {os : Os} {F : Type 0} ⦃fl : Float F⦄ (laws : SocketLaws os) (others : ℕ → Bool)
    (D : Demands F) where
  abbrev Partial : Demands F → System os F → Type 0
  Partial = IsPartial laws others

  pub create_motor-Partial :
      (s : System os F)
      → Partial (record D { motor = λ o. o ≡ none }) s
      → Returns
          (create_motor s)
          (λ r t. Partial (record D { motor = Has IsSoundMotor }) t × IsReturned r)
  unfolding create_motor
  create_motor-Partial s h =
      Returns->>= (on_client (Motor.motor_controller motor_config)) _
        (λ c t. Partial (record D { motor = Each IsSoundMotor }) t × IsController motor_config c) _
        s
        (on_client-Returns (IsValid laws others) (Motor.motor_controller motor_config)
          (λ c l. IsValid laws others l × IsController motor_config c) _ s h.client
          (motor_controller-IsController (IsValid laws others) (sockets_stable laws others).tick)
          (λ c l k. (
            record {
              initialized = h.initialized;
              thread = h.thread;
              client = k.0;
              motor = none-Each IsSoundMotor s.sdk.motor_controller h.motor;
              encoder = h.encoder;
              imu = h.imu;
            },
            k.1,
          )))
        (λ c t k.
          Returns->>= reset_motor _ _ _ t
            (reset_motor-Built laws others false (λ t. t ≡ no_thread) D t (k.0))
            (λ _ u m.
              on_motor-IsBuilt (IsValid laws others) false (λ t. t ≡ no_thread) D Motor.initialize
                IsReturned _
                (record {
                  initialized = m.initialized;
                  thread = m.thread;
                  client = m.client;
                  motor = record { object = k.1; thread = refl };
                  encoder = m.encoder;
                  imu = m.imu;
                })
                (λ d sound.
                  Returns-mono (Motor.initialize d) _ _
                    (MotorUpdates.initialize-Starts (sockets_stable laws others) motor_config d
                      sound)
                    (λ r t n. (n.0, Starts-IsReturned r t (without_reason r t (n.1)))))))

  pub create_encoder-Partial :
      (s : System os F)
      → Partial (record D { encoder = λ o. o ≡ none }) s
      → Returns
          (create_encoder s)
          (λ r t. Partial (record D { encoder = Has IsSoundEncoder }) t × IsReturned r)
  unfolding create_encoder Encoder.encoder_reader Encoder.Calibration.no_calibration
  create_encoder-Partial s h =
      Returns->>= (on_client (Encoder.encoder_reader encoder_config)) _
        (λ c t.
          Partial (record D { encoder = Each IsSoundEncoder }) t
          × EncoderKeeps.IsReader encoder_config c)
        _ s
        (on_client-Returns (IsValid laws others) (Encoder.encoder_reader encoder_config)
          (λ c l. IsValid laws others l × EncoderKeeps.IsReader encoder_config c) _ s h.client
          (λ l p. (
            (sockets_stable laws others).tick l p,
            record {
              same = refl;
              cached = record {
                channels = refl;
                typed = All-replicate (λ n. n < 2 ^ 16) 16 0 (omega arith);
              };
              calibrated = record { zeros = refl; scales = refl };
            },
          ))
          (λ c l k. (
            record {
              initialized = h.initialized;
              thread = h.thread;
              client = k.0;
              motor = h.motor;
              encoder = none-Each IsSoundEncoder s.sdk.encoder_reader h.encoder;
              imu = h.imu;
            },
            k.1,
          )))
        (λ c t k.
          Returns->>= reset_encoder _ _ _ t
            (reset_encoder-Built laws others false (λ t. t ≡ no_thread) D t (k.0))
            (λ _ u m.
              on_encoder-IsBuilt (IsValid laws others) false (λ t. t ≡ no_thread) D
                Encoder.initialize IsReturned _
                (record {
                  initialized = m.initialized;
                  thread = m.thread;
                  client = m.client;
                  motor = m.motor;
                  encoder = record { object = k.1; thread = refl };
                  imu = m.imu;
                })
                (λ d sound.
                  Returns-mono (Encoder.initialize d) _ _
                    (EncoderKeeps.initialize-Starts (sockets_stable laws others) encoder_config d
                      sound)
                    (λ r t n. (n.0, Starts-IsReturned r t (n.1))))))

  pub create_imu-Partial :
      (s : System os F)
      → Partial (record D { imu = λ o. o ≡ none }) s
      → Returns (create_imu s) (λ r t. Partial (record D { imu = Has IsSoundImu }) t × IsReturned r)
  unfolding create_imu Imu.imu_reader
  create_imu-Partial s h =
      Returns->>= (on_client (Imu.imu_reader imu_config)) _
        (λ c t. Partial (record D { imu = Each IsSoundImu }) t × ImuKeeps.IsReader imu_config c) _ s
        (on_client-Returns (IsValid laws others) (Imu.imu_reader imu_config)
          (λ c l. IsValid laws others l × ImuKeeps.IsReader imu_config c) _ s h.client
          (λ l p. ((sockets_stable laws others).tick l p, record { same = refl }))
          (λ c l k. (
            record {
              initialized = h.initialized;
              thread = h.thread;
              client = k.0;
              motor = h.motor;
              encoder = h.encoder;
              imu = none-Each IsSoundImu s.sdk.imu_reader h.imu;
            },
            k.1,
          )))
        (λ c t k.
          Returns->>= reset_imu _ _ _ t
            (reset_imu-Built laws others false (λ t. t ≡ no_thread) D t (k.0))
            (λ _ u m.
              on_imu-IsBuilt (IsValid laws others) false (λ t. t ≡ no_thread) D Imu.initialize
                IsReturned _
                (record {
                  initialized = m.initialized;
                  thread = m.thread;
                  client = m.client;
                  motor = m.motor;
                  encoder = m.encoder;
                  imu = record { object = k.1; thread = refl };
                })
                (λ d sound.
                  Returns-mono (Imu.initialize d) _ _
                    (ImuKeeps.initialize-Starts (sockets_stable laws others) imu_config d sound)
                    (λ r t n. (n.0, Starts-IsReturned r t (n.1))))))
