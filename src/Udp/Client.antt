-- ===== src/Udp/Client.antt =====
-- `class UdpClient`: src/udp_client.cpp. Mutexes guard single calls and are not modelled; log output
-- is not either.
use Prim.Native.String.{String}
use joyson_glove_sdk.Prelude.{
  ℕ, ◌+◌, ◌*◌, ◌/◌, ◌%◌, ◌^◌, Bool, true, false, not, Option, none, some, length, ltb, ◌==◌,
  if◌then◌else◌,
}
use joyson_glove_sdk.Prelude.Int.{ℤ, pos, negsuc}
use joyson_glove_sdk.Prelude.State.{State, pure, ◌>>=◌, ◌>>◌, gets, modify, lift}
use joyson_glove_sdk.Protocol.Packet.{Packet, serialize, deserialize}
use joyson_glove_sdk.Udp.Os.{
  Os, Errno, eagain, ewouldblock, other_error, Timeout, receive_timeout_option, send_timeout_option,
  Sent, not_sent, sent, Received, not_received, received,
}

pub record UdpConfig : Type 0 where
  pub server_ip : String
  pub server_port : ℕ
  pub local_port : ℕ
  pub send_timeout : ℕ
  pub receive_timeout : ℕ

pub record NetworkStatistics : Type 0 where
  pub packets_sent : ℕ
  pub packets_received : ℕ
  pub send_errors : ℕ
  pub receive_errors : ℕ
  pub timeouts : ℕ
  pub checksum_errors : ℕ

abbrev pub no_statistics : NetworkStatistics
no_statistics = record {
  packets_sent = 0;
  packets_received = 0;
  send_errors = 0;
  receive_errors = 0;
  timeouts = 0;
  checksum_errors = 0;
}

pub record UdpClient : Type 0 where
  pub config : UdpConfig
  pub socket_fd : ℤ
  pub connected : Bool
  pub stats : NetworkStatistics

-- The constructor.
abbrev pub udp_client : UdpConfig → UdpClient
udp_client config = record {
  config = config;
  socket_fd = negsuc 0;
  connected = false;
  stats = no_statistics;
}

-- The move constructor: the new client, and what is left of the old one.
unfoldable pub move_construct : UdpClient → UdpClient × UdpClient
move_construct other = (other, record other { socket_fd = negsuc 0; connected = false })

-- `fd >= 0`
abbrev pub is_open : ℤ → Bool
is_open (pos n) = true
is_open (negsuc n) = false

-- `++` on a `uint64_t`
abbrev pub count_up : ℕ → ℕ
count_up n = (n + 1) % 2 ^ 64

unfoldable pub update_send_stats : Bool → NetworkStatistics → NetworkStatistics
update_send_stats true s = record s { packets_sent = count_up s.packets_sent }
update_send_stats false s = record s { send_errors = count_up s.send_errors }

-- By success, timeout and checksum error.
unfoldable pub update_receive_stats : Bool → Bool → Bool → NetworkStatistics → NetworkStatistics
update_receive_stats success timeout checksum_error s =
    if success
    then record s { packets_received = count_up s.packets_received }
    else if timeout
    then record s { timeouts = count_up s.timeouts }
    else if checksum_error
    then record s { checksum_errors = count_up s.checksum_errors }
    else record s { receive_errors = count_up s.receive_errors }

abbrev pub is_timeout : Errno → Bool
is_timeout eagain = true
is_timeout ewouldblock = true
is_timeout other_error = false

-- `send` returned the whole size.
abbrev pub is_complete : Sent → ℕ → Bool
is_complete (not_sent e) size = false
is_complete (sent n) size = n == size

-- A client in its world.
pub record Link (os : Os) : Type 0 where
  pub client : UdpClient
  pub world : os.World

module _ {os : Os} where
  -- A call of the operating system.
  abbrev pub sys : {A : Type 0} → (os.World → A × os.World) → State (Link os) A
  sys call l = let (a, w) = call l.world in pure a (record l { world = w })

  abbrev pub on_client : (UdpClient → UdpClient) → State (Link os) (Unit {0})
  on_client f = modify (λ l. record l { client = f l.client })

  abbrev pub on_stats : (NetworkStatistics → NetworkStatistics) → State (Link os) (Unit {0})
  on_stats f = on_client (λ c. record c { stats = f c.stats })

  abbrev pub set_fd : ℤ → State (Link os) (Unit {0})
  set_fd fd = on_client (λ c. record c { socket_fd = fd })

  abbrev pub close_fd : ℤ → State (Link os) (Unit {0})
  close_fd fd = modify (λ l. record l { world = os.close fd l.world })

  -- The error branches of `connect` behind the creation of the socket.
  unfoldable pub give_up : ℤ → State (Link os) Bool
  give_up fd = do close_fd fd; set_fd (negsuc 0); pure false

  -- `tv.tv_sec` and `tv.tv_usec` of a time in milliseconds.
  unfoldable pub set_socket_timeout : ℤ → Timeout → ℕ → State (Link os) Bool
  set_socket_timeout fd option timeout =
      sys (os.set_timeout fd option (timeout / 1000) (timeout % 1000 * 1000))

  -- The local port is bound if it is not 0; a failure to set `SO_REUSEADDR` is only logged.
  unfoldable pub bind_local : ℤ → ℕ → State (Link os) Bool
  bind_local fd local_port =
      if not (ltb 0 local_port)
      then pure true
      else do sys (os.set_reuse_addr fd); sys (os.bind fd local_port)

  unfoldable pub join_end : State (Link os) Bool
  join_end = do on_client (λ c. record c { connected = true }); pure true

  -- `connect` behind the creation of the socket.
  unfoldable pub join : ℤ → UdpConfig → State (Link os) Bool
  join fd config = do
    bound ← bind_local fd config.local_port
    if not bound then give_up fd else do
      receives ← set_socket_timeout fd receive_timeout_option config.receive_timeout
      if not receives then give_up fd else do
        sends ← set_socket_timeout fd send_timeout_option config.send_timeout
        if not sends then give_up fd else do
          if not (os.is_address config.server_ip) then give_up fd else do
            joined ← sys (os.connect fd config.server_ip config.server_port)
            if not joined then give_up fd else join_end

  unfoldable pub connect : State (Link os) Bool
  connect = do
    c ← gets (λ l. l.client)
    if c.connected then pure true else do
      fd ← sys os.socket
      set_fd fd
      if not (is_open fd) then pure false else join fd c.config

  unfoldable pub disconnect : State (Link os) (Unit {0})
  disconnect = do
    c ← gets (λ l. l.client)
    if is_open c.socket_fd then (do close_fd c.socket_fd; set_fd (negsuc 0)) else pure tt
    on_client (λ c. record c { connected = false })

  -- The destructor.
  abbrev pub destroy : State (Link os) (Unit {0})
  destroy = disconnect

  unfoldable pub send_packet : Packet → State (Link os) Bool
  send_packet packet = do
    c ← gets (λ l. l.client)
    if not c.connected then (do on_stats (update_send_stats false); pure false) else do
      let bytes = serialize packet
      outcome ← sys (os.send c.socket_fd bytes)
      on_stats (update_send_stats (is_complete outcome (length bytes)))
      pure (is_complete outcome (length bytes))

  -- The end of `receive_packet`, by what `deserialize` returned.
  unfoldable pub deliver : Option Packet → State (Link os) (Option Packet)
  deliver none = do on_stats (update_receive_stats false false true); pure none
  deliver (some p) = do on_stats (update_receive_stats true false false); pure (some p)

  -- `receive_packet` behind `recv`.
  unfoldable pub on_received : Received → State (Link os) (Option Packet)
  on_received (not_received e) = do
    on_stats (update_receive_stats false (is_timeout e) false)
    pure none
  on_received (received bytes) = do packet ← lift (deserialize bytes); deliver packet

  -- The buffer has 1024 bytes and is cut to what was received.
  unfoldable pub receive_packet : State (Link os) (Option Packet)
  receive_packet = do
    c ← gets (λ l. l.client)
    if not c.connected
        then (do on_stats (update_receive_stats false false false); pure none)
        else do outcome ← sys (os.recv c.socket_fd 1024); on_received outcome

  unfoldable pub send_and_receive : Packet → State (Link os) (Option Packet)
  send_and_receive packet = do
    done ← send_packet packet
    if not done then pure none else receive_packet

  unfoldable pub send_async : Packet → State (Link os) Bool
  send_async packet = send_packet packet

  unfoldable pub get_statistics : State (Link os) NetworkStatistics
  get_statistics = gets (λ l. l.client.stats)

  unfoldable pub reset_statistics : State (Link os) (Unit {0})
  reset_statistics = on_stats (λ _. no_statistics)

  -- The move assignment, for two objects that are not the same one.
  unfoldable pub move_assign : UdpClient → State (Link os) UdpClient
  move_assign other = do
    disconnect
    on_client (λ _. other)
    pure (record other { socket_fd = negsuc 0; connected = false })
