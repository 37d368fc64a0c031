-- ===== src/Sdk/Parts.antt =====
-- The members of `class GloveSDK`, include/joyson_glove/glove_sdk.hpp, and how its methods reach the
-- objects that they own: a null pointer that is followed ends in `out_of_bounds`.
use Prim.Native.String.{String}
use joyson_glove_sdk.Prelude.{ℕ, Bool, true, false, Option, none, some}
use joyson_glove_sdk.Prelude.Monad.{ok, in_bounds, ◌>>=◌}
use joyson_glove_sdk.Prelude.State.{State, modify}
use joyson_glove_sdk.Udp.Os.{Os}
use joyson_glove_sdk.Udp.Client.{UdpClient, Link}
use joyson_glove_sdk.Device.{UpdateThread, no_thread, Device}
use joyson_glove_sdk.Motor.{MotorController}
use joyson_glove_sdk.Encoder.{EncoderReader}
use joyson_glove_sdk.Imu.{ImuReader}

pub record GloveConfig : Type 0 where
  pub server_ip : String
  pub server_port : ℕ
  pub local_port : ℕ
  pub send_timeout : ℕ
  pub receive_timeout : ℕ
  pub auto_start_thread : Bool
  pub update_interval : ℕ

-- `GloveConfig{}`
unfoldable pub default_config : GloveConfig
default_config = record {
  server_ip = "192.168.10.123";
  server_port = 8080;
  local_port = 8080;
  send_timeout = 100;
  receive_timeout = 100;
  auto_start_thread = true;
  update_interval = 100;
}

-- An object with its update thread.
pub record Part (C : Type 0) : Type 0 where
  pub object : C
  pub thread : UpdateThread

-- A null pointer is `none`. Every part holds a pointer to the same client as `udp_client`.
pub record GloveSdk (F : Type 0) : Type 0 where
  pub config : GloveConfig
  pub initialized : Bool
  pub thread : UpdateThread
  pub udp_client : Option UdpClient
  pub motor_controller : Option (Part MotorController)
  pub encoder_reader : Option (Part (EncoderReader F))
  pub imu_reader : Option (Part (ImuReader F))

-- The constructor.
unfoldable pub glove_sdk : {F : Type 0} → GloveConfig → GloveSdk F
glove_sdk config = record {
  config = config;
  initialized = false;
  thread = no_thread;
  udp_client = none;
  motor_controller = none;
  encoder_reader = none;
  imu_reader = none;
}

-- The SDK in its world.
pub record System (os : Os) (F : Type 0) : Type 0 where
  pub sdk : GloveSdk F
  pub world : os.World

module _ {os : Os} {F : Type 0} where
  abbrev pub on_sdk : (GloveSdk F → GloveSdk F) → State (System os F) (Unit {0})
  on_sdk f = modify (λ s. record s { sdk = f s.sdk })

  -- A call of the operating system.
  abbrev pub on_world : {A : Type 0} → (os.World → A × os.World) → State (System os F) A
  on_world call s = ok ((call s.world).0, record s { world = (call s.world).1 })

  -- A method of the client.
  unfoldable pub on_client : {A : Type 0} → State (Link os) A → State (System os F) A
  on_client m s = do
    c ← in_bounds s.sdk.udp_client
    r ← m (record { client = c; world = s.world })
    ok (r.0, record { sdk = record s.sdk { udp_client = some r.1.client }; world = r.1.world })

  -- A method of a part, which `put` writes back, and which calls the client.
  unfoldable pub on_part :
      {C A : Type 0}
      → (GloveSdk F → Option (Part C))
      → (Part C → GloveSdk F → GloveSdk F)
      → State (Device os C) A
      → State (System os F) A
  on_part part put m s = do
    p ← in_bounds (part s.sdk)
    c ← in_bounds s.sdk.udp_client
    r ← m (record {
      object = p.object;
      thread = p.thread;
      link = record { client = c; world = s.world };
    })
    ok (
      r.0,
      record {
        sdk =
            put (record { object = r.1.object; thread = r.1.thread })
              (record s.sdk { udp_client = some r.1.link.client });
        world = r.1.link.world;
      },
    )

  unfoldable pub on_motor :
      {A : Type 0} → State (Device os MotorController) A → State (System os F) A
  on_motor = on_part (λ s. s.motor_controller) (λ p s. record s { motor_controller = some p })

  unfoldable pub on_encoder :
      {A : Type 0} → State (Device os (EncoderReader F)) A → State (System os F) A
  on_encoder = on_part (λ s. s.encoder_reader) (λ p s. record s { encoder_reader = some p })

  unfoldable pub on_imu : {A : Type 0} → State (Device os (ImuReader F)) A → State (System os F) A
  on_imu = on_part (λ s. s.imu_reader) (λ p s. record s { imu_reader = some p })
