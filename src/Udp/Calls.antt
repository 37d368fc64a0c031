-- ===== src/Udp/Calls.antt =====
-- Histories of calls on a `UdpClient`, include/joyson_glove/udp_client.hpp.
use joyson_glove_sdk.Prelude.{List, [], ◌∷◌}
use joyson_glove_sdk.Prelude.State.{State, pure, ◌>>◌}
use joyson_glove_sdk.Protocol.Packet.{Packet}
use joyson_glove_sdk.Udp.Os.{Os}
use joyson_glove_sdk.Udp.Client.{
  Link, connect, disconnect, send_packet, send_async, receive_packet, send_and_receive,
  reset_statistics,
}

pub data Call : Type 0 where
  connecting disconnecting receiving resetting : Call
  sending sending_async exchanging : Packet → Call

module _ {os : Os} where
  -- A call, without its result.
  unfoldable pub perform : Call → State (Link os) (Unit {0})
  perform connecting = do connect; pure tt
  perform disconnecting = disconnect
  perform receiving = do receive_packet; pure tt
  perform resetting = reset_statistics
  perform (sending p) = do send_packet p; pure tt
  perform (sending_async p) = do send_async p; pure tt
  perform (exchanging p) = do send_and_receive p; pure tt

  unfoldable pub perform_all : List Call → State (Link os) (Unit {0})
  perform_all [] = pure tt
  perform_all (call ∷ calls) = do perform call; perform_all calls
