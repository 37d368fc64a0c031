-- ===== src/Udp/Threads.antt =====
-- Two threads that call `send_and_receive` of one `UdpClient`, src/udp_client.cpp. The mutexes are held
-- by `send_packet` and by `receive_packet`, and not from one to the other, so the threads interleave
-- between these two.
pub mod Progress
pub mod Crossed
use joyson_glove_sdk.Prelude.{◌≡◌, Bool, Option, none, if◌then◌else◌}
use joyson_glove_sdk.Prelude.Monad.{ok}
use joyson_glove_sdk.Prelude.State.{State, pure, ◌>>=◌}
use joyson_glove_sdk.Protocol.Packet.{Packet}
use joyson_glove_sdk.Udp.Os.{Os}
use joyson_glove_sdk.Udp.Client.{Link, send_packet, receive_packet}

-- How far a thread is in `send_and_receive`.
pub data Stage : Type 0 where
  sending : Packet → Stage
  receiving : Stage
  finished : Option Packet → Stage

-- Two threads and the client that they share.
pub record Shared (os : Os) : Type 0 where
  pub one : Stage
  pub two : Stage
  pub link : Link os

module _ {os : Os} where
  -- The next call of a thread; a thread that is finished stays so.
  unfoldable pub advance : Stage → State (Link os) Stage
  advance (sending packet) = do
    done ← send_packet packet
    pure (if done then receiving else finished none)
  advance receiving = do response ← receive_packet; pure (finished response)
  advance (finished response) = pure (finished response)

  pub data Step (s : Shared os) : Shared os → Type 0 where
    first :
        (stage : Stage) (l : Link os)
        → advance s.one s.link ≡ ok (stage, l)
        → Step s (record { one = stage; two = s.two; link = l })
    second :
        (stage : Stage) (l : Link os)
        → advance s.two s.link ≡ ok (stage, l)
        → Step s (record { one = s.one; two = stage; link = l })

  pub data Reach (s : Shared os) : Shared os → Type 0 where
    here : Reach s s
    next : {t u : Shared os} → Reach s t → Step t u → Reach s u
