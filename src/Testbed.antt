-- ===== src/Testbed.antt =====
-- The operating system and the number type on which the examples run: one free descriptor, 3, and a
-- queue of datagrams that arrive.
mod Wire
mod Runs
mod Parts
mod Glove
mod Replies
mod Boards
mod Served
mod Turns
use Prim.Native.String.{String}
use joyson_glove_sdk.Prelude.{
  ℕ, ◌+◌, ◌-◌, ◌*◌, ◌/◌, ◌%◌, ◌≡◌, refl, arith, Bool, true, false, not, ◌&&◌, ◌||◌, ◌==◌, List, [],
  ◌∷◌, length, if◌then◌else◌,
}
use joyson_glove_sdk.Prelude.Float.{Float}
use joyson_glove_sdk.Prelude.Int.{ℤ, pos, negsuc}
use joyson_glove_sdk.Udp.Os.{Os, eagain, Sent, sent, Received, received, not_received}
use joyson_glove_sdk.Udp.Sockets.{SocketLaws, owns}

pub record TestWorld : Type 0 where
  pub in_use : Bool
  pub inbox : List (List ℕ)
  pub clock : ℕ

abbrev pub next_datagram : TestWorld → Received × TestWorld
next_datagram w = elim w.inbox [
  | [] ↦ (not_received eagain, w)
  | bytes ∷ rest ↦ (received bytes, record w { inbox = rest })
]

abbrev closed : ℤ → TestWorld → TestWorld
closed (pos n) w = record w { in_use = not (n == 3) && w.in_use }
closed (negsuc n) w = w

abbrev pub test_os : Os
test_os = record {
  World = TestWorld;
  socket = λ w. if w.in_use then (negsuc 0, w) else (pos 3, record w { in_use = true });
  set_reuse_addr = λ fd w. (true, w);
  bind = λ fd port w. (true, w);
  set_timeout = λ fd option seconds micros w. (true, w);
  is_address = λ ip. true;
  connect = λ fd ip port w. (true, w);
  close = closed;
  send = λ fd bytes w. (sent (length bytes), w);
  recv = λ fd size w. next_datagram w;
  steady_now = λ w. (w.clock, record w { clock = w.clock + 1 });
  sleep_for = λ nanoseconds w. record w { clock = w.clock + nanoseconds };
  start_thread = λ w. (true, w);
}

abbrev is_open_in : TestWorld → ℕ → Bool
is_open_in w m = w.in_use && (3 == m)

pub test_laws : SocketLaws test_os
test_laws = record {
  opened = is_open_in;
  socket-fresh = fresh;
  socket-opened = socket_opened;
  close-opened = close_opened;
  set_reuse_addr-opened = λ fd w m. refl;
  bind-opened = λ fd port w m. refl;
  set_timeout-opened = λ fd option seconds micros w m. refl;
  connect-opened = λ fd ip port w m. refl;
  send-opened = λ fd bytes w m. refl;
  steady_now-opened = λ w m. refl;
  start_thread-opened = λ w m. refl;
  sleep_for-opened = λ nanoseconds w m. refl;
  recv-opened = λ fd size w m. recv_opened w m w.inbox;
}
  where
    with_flag : Bool → TestWorld → TestWorld
    with_flag b w = record w { in_use = b }

    fresh_by :
        (b : Bool) (w : TestWorld) (m : ℕ)
        → owns ((test_os.socket (with_flag b w)).0) m ≡ true
        → is_open_in (with_flag b w) m ≡ false
    fresh_by true w m h = cc
    fresh_by false w m h = refl

    fresh : (w : TestWorld) (m : ℕ) → owns ((test_os.socket w).0) m ≡ true → is_open_in w m ≡ false
    fresh w m h = fresh_by w.in_use w m h

    opened_by :
        (b : Bool) (w : TestWorld) (m : ℕ)
        → is_open_in ((test_os.socket (with_flag b w)).1) m
          ≡ (owns ((test_os.socket (with_flag b w)).0) m || is_open_in (with_flag b w) m)
    opened_by true w m = refl
    opened_by false w m = same (3 == m)
      where
        same : (b : Bool) → b ≡ (b || false)
        same true = refl
        same false = refl

    socket_opened :
        (w : TestWorld) (m : ℕ)
        → is_open_in ((test_os.socket w).1) m ≡ (owns ((test_os.socket w).0) m || is_open_in w m)
    socket_opened w m = opened_by w.in_use w m

    close_opened :
        (n : ℕ) (w : TestWorld) (m : ℕ)
        → is_open_in (closed (pos n) w) m ≡ (not (n == m) && is_open_in w m)
    close_opened n w m = ground arith

    recv_opened :
        (w : TestWorld) (m : ℕ) (inbox : List (List ℕ))
        → is_open_in ((next_datagram (record w { inbox = inbox })).1) m ≡ is_open_in w m
    recv_opened w m [] = refl
    recv_opened w m (bytes ∷ rest) = refl

-- Whole numbers in place of `float`, which wrap at 3600.
abbrev pub whole_numbers : Float ℕ
whole_numbers = record {
  of_bits = λ n. n;
  of_ℕ = λ n. n;
  add = λ a b. (a + b) % 3600;
  sub = λ a b. (a + 3600 - b) % 3600;
  mul = ◌*◌;
  div = ◌/◌;
  fmod = ◌%◌;
}
