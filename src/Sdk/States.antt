-- ===== src/Sdk/States.antt =====
-- The states of `class GloveSDK`, src/glove_sdk.cpp, and what a method of one of its objects keeps.
use joyson_glove_sdk.Prelude.{◌≡◌, Bool, false, Option, none, some}
use joyson_glove_sdk.Prelude.State.{State, Returns}
use joyson_glove_sdk.Udp.Os.{Os}
use joyson_glove_sdk.Udp.Client.{UdpClient, Link}
use joyson_glove_sdk.Device.{UpdateThread, Device}
use joyson_glove_sdk.Device.Keeps.{IsSound}
use joyson_glove_sdk.Motor.{MotorController, MotorControllerConfig}
use joyson_glove_sdk.Motor.Keeps.{IsController}
use joyson_glove_sdk.Encoder.{EncoderReader, EncoderReaderConfig}
use joyson_glove_sdk.Encoder.Keeps as EncoderKeeps
use joyson_glove_sdk.Imu.{ImuReader, ImuReaderConfig}
use joyson_glove_sdk.Imu.Keeps as ImuKeeps
use joyson_glove_sdk.Sdk.Parts.{Part, System, on_client, on_motor, on_encoder, on_imu}
use joyson_glove_sdk.Sdk.Reach.{Has, IsSoundPart, HasClient, on_client-Returns, on_part-Returns}

-- The configurations that `GloveSDK::initialize` gives to its parts.
abbrev pub motor_config : MotorControllerConfig
motor_config = record { auto_start_thread = false; update_interval = 100 }

abbrev pub encoder_config : EncoderReaderConfig
encoder_config = record { auto_start_thread = false; update_interval = 100 }

abbrev pub imu_config : ImuReaderConfig
imu_config = record { auto_start_thread = false; update_interval = 100 }

-- What is asked of the motor controller, the encoder reader and the IMU reader.
pub record Demands (F : Type 0) : Type 1 where
  pub motor : Option (Part MotorController) → Type 0
  pub encoder : Option (Part (EncoderReader F)) → Type 0
  pub imu : Option (Part (ImuReader F)) → Type 0

abbrev pub IsSoundMotor : Part MotorController → Type 0
IsSoundMotor = IsSoundPart (IsController motor_config)

abbrev pub IsSoundEncoder : {F : Type 0} → Part (EncoderReader F) → Type 0
IsSoundEncoder = IsSoundPart (EncoderKeeps.IsReader encoder_config)

abbrev pub IsSoundImu : {F : Type 0} → Part (ImuReader F) → Type 0
IsSoundImu = IsSoundPart (ImuKeeps.IsReader imu_config)

module _ {os : Os} {F : Type 0} (P : Link os → Type 0) where
  -- An SDK with a client, a flag `initialized`, an update thread in `T`, and parts as demanded.
  pub record IsBuilt (flag : Bool) (T : UpdateThread → Type 0) (D : Demands F) (s : System os F)
      : Type 0 where
    pub initialized : s.sdk.initialized ≡ flag
    pub thread : T s.sdk.thread
    pub client : HasClient P s
    pub motor : D.motor s.sdk.motor_controller
    pub encoder : D.encoder s.sdk.encoder_reader
    pub imu : D.imu s.sdk.imu_reader

  pub IsBuilt-mono :
      (flag : Bool) (T : UpdateThread → Type 0) (D E : Demands F) (s : System os F)
      → ((o : Option (Part MotorController)) → D.motor o → E.motor o)
      → ((o : Option (Part (EncoderReader F))) → D.encoder o → E.encoder o)
      → ((o : Option (Part (ImuReader F))) → D.imu o → E.imu o)
      → IsBuilt flag T D s
      → IsBuilt flag T E s
  IsBuilt-mono flag T D E s motor encoder imu h = record {
    initialized = h.initialized;
    thread = h.thread;
    client = h.client;
    motor = motor s.sdk.motor_controller h.motor;
    encoder = encoder s.sdk.encoder_reader h.encoder;
    imu = imu s.sdk.imu_reader h.imu;
  }

  module _ (flag : Bool) (T : UpdateThread → Type 0) (D : Demands F) where
    -- A call of the system that keeps the link, such as one of the clock.
    pub in_world-IsBuilt :
        (s : System os F) (v : os.World)
        → ((c : UdpClient)
            → P (record { client = c; world = s.world })
            → P (record { client = c; world = v }))
        → IsBuilt flag T D s
        → IsBuilt flag T D (record s { world = v })
    in_world-IsBuilt s v keeps h = record {
      initialized = h.initialized;
      thread = h.thread;
      client = by_client s.sdk.udp_client h.client;
      motor = h.motor;
      encoder = h.encoder;
      imu = h.imu;
    }
      where
        by_client :
            (o : Option UdpClient)
            → Has (λ (c : UdpClient). P (record { client = c; world = s.world })) o
            → Has (λ (c : UdpClient). P (record { client = c; world = v })) o
        by_client none h = h
        by_client (some c) h = keeps c h

    pub on_client-IsBuilt :
        {A : Type 0} (m : State (Link os) A) (X : A → Link os → Type 0) (s : System os F)
        → IsBuilt flag T D s
        → ((l : Link os) → P l → Returns (m l) (λ a t. P t × X a t))
        → Returns (on_client m s) (λ a t.
          IsBuilt flag T D t
          × Has (λ c. X a (record { client = c; world = t.world })) t.sdk.udp_client)
    on_client-IsBuilt m X s h k =
        on_client-Returns P m (λ a t. P t × X a t) _ s h.client k
          (λ a l x. (
            record {
              initialized = h.initialized;
              thread = h.thread;
              client = x.0;
              motor = h.motor;
              encoder = h.encoder;
              imu = h.imu;
            },
            x.1,
          ))

    pub on_motor-IsBuilt :
        {A : Type 0} (m : State (Device os MotorController) A) (X : A → Type 0) (s : System os F)
        → IsBuilt flag T (record D { motor = Has IsSoundMotor }) s
        → ((d : Device os MotorController)
            → IsSound P (IsController motor_config) d
            → Returns (m d) (λ a t. IsSound P (IsController motor_config) t × X a))
        → Returns
            (on_motor m s)
            (λ a t. IsBuilt flag T (record D { motor = Has IsSoundMotor }) t × X a)
    unfolding on_motor
    on_motor-IsBuilt m X s h k =
        on_part-Returns P (λ s. s.motor_controller) (λ p s. record s { motor_controller = some p })
          m (IsController motor_config) (λ a _. X a) _ s h.motor h.client k
          (λ a d sound x. (
            record {
              initialized = h.initialized;
              thread = h.thread;
              client = sound.link;
              motor = record { object = sound.object; thread = sound.thread };
              encoder = h.encoder;
              imu = h.imu;
            },
            x,
          ))

    pub on_encoder-IsBuilt :
        {A : Type 0} (m : State (Device os (EncoderReader F)) A) (X : A → Type 0) (s : System os F)
        → IsBuilt flag T (record D { encoder = Has IsSoundEncoder }) s
        → ((d : Device os (EncoderReader F))
            → IsSound P (EncoderKeeps.IsReader encoder_config) d
            → Returns (m d) (λ a t. IsSound P (EncoderKeeps.IsReader encoder_config) t × X a))
        → Returns
            (on_encoder m s)
            (λ a t. IsBuilt flag T (record D { encoder = Has IsSoundEncoder }) t × X a)
    unfolding on_encoder
    on_encoder-IsBuilt m X s h k =
        on_part-Returns P (λ s. s.encoder_reader) (λ p s. record s { encoder_reader = some p }) m
          (EncoderKeeps.IsReader encoder_config) (λ a _. X a) _ s h.encoder h.client k
          (λ a d sound x. (
            record {
              initialized = h.initialized;
              thread = h.thread;
              client = sound.link;
              motor = h.motor;
              encoder = record { object = sound.object; thread = sound.thread };
              imu = h.imu;
            },
            x,
          ))

    pub on_imu-IsBuilt :
        {A : Type 0} (m : State (Device os (ImuReader F)) A) (X : A → Type 0) (s : System os F)
        → IsBuilt flag T (record D { imu = Has IsSoundImu }) s
        → ((d : Device os (ImuReader F))
            → IsSound P (ImuKeeps.IsReader imu_config) d
            → Returns (m d) (λ a t. IsSound P (ImuKeeps.IsReader imu_config) t × X a))
        → Returns (on_imu m s) (λ a t. IsBuilt flag T (record D { imu = Has IsSoundImu }) t × X a)
    unfolding on_imu
    on_imu-IsBuilt m X s h k =
        on_part-Returns P (λ s. s.imu_reader) (λ p s. record s { imu_reader = some p }) m
          (ImuKeeps.IsReader imu_config) (λ a _. X a) _ s h.imu h.client k
          (λ a d sound x. (
            record {
              initialized = h.initialized;
              thread = h.thread;
              client = sound.link;
              motor = h.motor;
              encoder = h.encoder;
              imu = record { object = sound.object; thread = sound.thread };
            },
            x,
          ))
