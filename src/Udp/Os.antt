-- ===== src/Udp/Os.antt =====
-- What src/udp_client.cpp and the other components take from the operating system: BSD sockets,
-- the steady clock and threads, over a world that is left open.
use Prim.Native.String.{String}
use joyson_glove_sdk.Prelude.{ℕ, Bool, List}
use joyson_glove_sdk.Prelude.Int.{ℤ}

-- The values of `errno` that the source tells apart.
pub data Errno : Type 0 where
  eagain ewouldblock other_error : Errno

-- `SO_RCVTIMEO` and `SO_SNDTIMEO`
pub data Timeout : Type 0 where
  receive_timeout_option send_timeout_option : Timeout

-- A count below 0 with its `errno`, or the bytes that were sent or received.
pub data Sent : Type 0 where
  not_sent : Errno → Sent
  sent : ℕ → Sent

pub data Received : Type 0 where
  not_received : Errno → Received
  received : List ℕ → Received

-- A `Bool` says whether a call returned no error.
pub record Os : Type 1 where
  pub World : Type 0
  pub socket : World → ℤ × World
  pub set_reuse_addr : ℤ → World → Bool × World
  pub bind : ℤ → ℕ → World → Bool × World
  -- seconds and microseconds of a `timeval`
  pub set_timeout : ℤ → Timeout → ℕ → ℕ → World → Bool × World
  pub is_address : String → Bool
  pub connect : ℤ → String → ℕ → World → Bool × World
  pub close : ℤ → World → World
  pub send : ℤ → List ℕ → World → Sent × World
  -- into a buffer of so many bytes
  pub recv : ℤ → ℕ → World → Received × World
  -- nanoseconds
  pub steady_now : World → ℕ × World
  -- nanoseconds
  pub sleep_for : ℕ → World → World
  -- the constructor of a `std::thread` that throws no `std::system_error`
  pub start_thread : World → Bool × World
