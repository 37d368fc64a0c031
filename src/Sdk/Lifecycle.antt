-- ===== src/Sdk/Lifecycle.antt =====
-- `initialize`, `cleanup_resources` and `shutdown` of src/glove_sdk.cpp.
use joyson_glove_sdk.Prelude.{
  ℕ, ◌≡◌, refl, Bool, true, false, is_some, Each, Option, none, some, if◌then◌else◌,
}
use joyson_glove_sdk.Prelude.Float.{Float}
use joyson_glove_sdk.Prelude.State.{pure, ◌>>◌, Returns, Returns->>=, Returns-if}
use joyson_glove_sdk.Udp.Os.{Os}
use joyson_glove_sdk.Udp.Client.{UdpClient, disconnect}
use joyson_glove_sdk.Udp.Sockets.{SocketLaws, IsValid}
use joyson_glove_sdk.Udp.Sockets.Calls.{IsClosed, disconnect-IsClosed, IsClosed-IsValid}
use joyson_glove_sdk.Device.{UpdateThread, no_thread}
use joyson_glove_sdk.Sdk.{reset_imu, reset_encoder, reset_motor, reset_client, cleanup_resources}
use joyson_glove_sdk.Sdk.Parts.{System, on_client}
use joyson_glove_sdk.Sdk.Reach.{Has, HasClient, on_client-Returns}
use joyson_glove_sdk.Sdk.States.{Demands, IsBuilt, IsSoundMotor, IsSoundEncoder, IsSoundImu}
use joyson_glove_sdk.Sdk.Resets.{reset_imu-Built, reset_encoder-Built, reset_motor-Built}

-- Every part may be missing, and is sound where it is there.
abbrev pub some_parts : (F : Type 0) → Demands F
some_parts F = record {
  motor = Each IsSoundMotor;
  encoder = Each IsSoundEncoder;
  imu = Each IsSoundImu;
}

abbrev pub all_parts : (F : Type 0) → Demands F
all_parts F = record {
  motor = Has IsSoundMotor;
  encoder = Has IsSoundEncoder;
  imu = Has IsSoundImu;
}

-- The thread of an SDK is joinable only while it runs.
abbrev pub IsThread : UpdateThread → Type 0
IsThread t = t.joinable ≡ true → t.running ≡ true

-- No part is there.
abbrev pub no_parts : (F : Type 0) → Demands F
no_parts F = record { motor = λ o. o ≡ none; encoder = λ o. o ≡ none; imu = λ o. o ≡ none }

module _ {os : Os} {F : Type 0} ⦃fl : Float F⦄ (laws : SocketLaws os) (others : ℕ → Bool) where
  -- Nothing is there: no client, no part, no thread, and no descriptor.
  pub record IsIdle (s : System os F) : Type 0 where
    pub initialized : s.sdk.initialized ≡ false
    pub thread : s.sdk.thread ≡ no_thread
    pub client : s.sdk.udp_client ≡ none
    pub motor : s.sdk.motor_controller ≡ none
    pub encoder : s.sdk.encoder_reader ≡ none
    pub imu : s.sdk.imu_reader ≡ none
    pub opened : (m : ℕ) → laws.opened s.world m ≡ others m

  -- Everything is there and sound.
  abbrev pub IsReady : System os F → Type 0
  IsReady = IsBuilt (IsValid laws others) true IsThread (all_parts F)

  -- A part of the way through `initialize`, with such parts.
  abbrev pub IsPartial : Demands F → System os F → Type 0
  IsPartial = IsBuilt (IsValid laws others) false (λ t. t ≡ no_thread)

  -- The client is disconnected.
  abbrev IsReleased : Unit {0} → System os F → Type 0
  IsReleased _ = IsBuilt (IsClosed laws others) false (λ t. t ≡ no_thread) (no_parts F)

  reset_client-IsIdle :
      (s : System os F) → IsReleased tt s → Returns (reset_client s) (λ _ t. IsIdle t)
  unfolding reset_client
  reset_client-IsIdle s h =
      Returns->>= (if is_some s.sdk.udp_client then on_client disconnect else pure tt) _ IsReleased
        _ s
        (Returns-if (is_some s.sdk.udp_client) (on_client disconnect) (pure tt) IsReleased s
          (λ _.
            on_client-Returns (IsClosed laws others) disconnect (λ _ l. IsClosed laws others l)
              IsReleased s h.client
              (λ l k. disconnect-IsClosed laws others l (IsClosed-IsValid laws others l k))
              (λ _ l k. record {
                initialized = h.initialized;
                thread = h.thread;
                client = k;
                motor = h.motor;
                encoder = h.encoder;
                imu = h.imu;
              }))
          (λ _. h))
        (λ _ t k. record {
          initialized = k.initialized;
          thread = k.thread;
          client = refl;
          motor = k.motor;
          encoder = k.encoder;
          imu = k.imu;
          opened = opened t k.client;
        })
    where
      opened :
          (t : System os F)
          → HasClient (IsClosed laws others) t
          → (m : ℕ) → laws.opened t.world m ≡ others m
      opened t = by_client t.sdk.udp_client t.world
        where
          by_client :
              (o : Option UdpClient) (w : os.World)
              → Has (λ (c : UdpClient). IsClosed laws others (record { client = c; world = w })) o
              → (m : ℕ) → laws.opened w m ≡ others m
          by_client none w h = absurd h
          by_client (some c) w h = h.opened

  -- The end of `cleanup_resources`.
  release-IsIdle :
      (s : System os F)
      → IsPartial (no_parts F) s
      → Returns
          ((if is_some s.sdk.udp_client then on_client disconnect >> reset_client else pure tt) s)
          (λ _ t. IsIdle t)
  unfolding reset_client
  release-IsIdle s h =
      Returns-if (is_some s.sdk.udp_client) _ _ _ s
        (λ _.
          Returns->>= (on_client disconnect) _ IsReleased _ s
            (on_client-Returns (IsValid laws others) disconnect (λ _ l. IsClosed laws others l)
              IsReleased s h.client (disconnect-IsClosed laws others)
              (λ _ l k. record {
                initialized = h.initialized;
                thread = h.thread;
                client = k;
                motor = h.motor;
                encoder = h.encoder;
                imu = h.imu;
              }))
            (λ _ t k. reset_client-IsIdle t k))
        (λ e. absurd (
          no_client
            (λ (c : UdpClient). IsValid laws others (record { client = c; world = s.world }))
            s.sdk.udp_client h.client e))
    where
      no_client : (P : UdpClient → Type 0) (o : Option UdpClient) → Has P o → ¬ (is_some o ≡ false)
      no_client P none h e = h
      no_client P (some c) h e = cc

  pub cleanup_resources-IsIdle :
      (s : System os F)
      → IsPartial (some_parts F) s
      → Returns (cleanup_resources s) (λ _ t. IsIdle t)
  unfolding cleanup_resources
  cleanup_resources-IsIdle s h =
      Returns->>= reset_imu _ _ _ s
        (reset_imu-Built laws others false (λ t. t ≡ no_thread) (some_parts F) s h)
        (λ _ t k.
          Returns->>= reset_encoder _ _ _ t
            (reset_encoder-Built laws others false (λ t. t ≡ no_thread)
              (record (some_parts F) { imu = λ o. o ≡ none }) t k)
            (λ _ u k.
              Returns->>= reset_motor _ _ _ u
                (reset_motor-Built laws others false (λ t. t ≡ no_thread)
                  (record (some_parts F) { imu = λ o. o ≡ none; encoder = λ o. o ≡ none }) u k)
                (λ _ v k. release-IsIdle v k)))
