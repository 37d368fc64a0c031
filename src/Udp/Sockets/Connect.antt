-- ===== src/Udp/Sockets/Connect.antt =====
-- `UdpClient::connect`, src/udp_client.cpp: the descriptors on every branch.
use joyson_glove_sdk.Prelude.{
  ℕ, ◌≡◌, refl, sym, ap, ◌∙◌, subst, ◌/◌, ◌%◌, ◌*◌, Bool, true, false, not, ltb, if◌then◌else◌,
}
use joyson_glove_sdk.Prelude.Int.{ℤ, pos, negsuc}
use joyson_glove_sdk.Prelude.State.{State, pure, ◌>>=◌, Returns, Returns->>=, Returns-if}
use joyson_glove_sdk.Udp.Os.{Os, Timeout, receive_timeout_option, send_timeout_option}
use joyson_glove_sdk.Udp.Client.{
  Link, is_open, connect, bind_local, set_socket_timeout, give_up, join, join_end, sys, UdpConfig,
}
use joyson_glove_sdk.Udp.Sockets.{
  SocketLaws, IsOwned, IsValid, IsOwned-keep, IsOwned-socket, IsOwned-close,
}

module _ {os : Os} (laws : SocketLaws os) (others : ℕ → Bool) where
  -- What `connect` promises.
  abbrev pub Connects : Bool → Link os → Type 0
  Connects done l = IsValid laws others l × (l.client.connected ≡ done)

  -- The client in the part of `connect` behind the creation of the socket.
  record IsJoining (fd : ℤ) (l : Link os) : Type 0 where
    socket_fd : l.client.socket_fd ≡ fd
    connected : l.client.connected ≡ false
    owned : IsOwned laws others fd l.world

  give_up-Connects :
      (n : ℕ) (l : Link os) → IsJoining (pos n) l → Returns (give_up (pos n) l) Connects
  unfolding give_up
  give_up-Connects n l h = (
    record { connected = h.connected; owned = IsOwned-close laws others n l.world h.owned },
    h.connected,
  )

  -- One test of `connect`, with the rest behind it.
  attempt :
      (n : ℕ) (m rest : State (Link os) Bool)
      → ((l : Link os) → IsJoining (pos n) l → Returns (m l) (λ done t. IsJoining (pos n) t))
      → ((l : Link os) → IsJoining (pos n) l → Returns (rest l) Connects)
      → (l : Link os) → IsJoining (pos n) l
      → Returns ((m >>= λ done. if not done then give_up (pos n) else rest) l) Connects
  attempt n m rest hm hrest l h =
      Returns->>= m _ (λ done t. IsJoining (pos n) t) Connects l (hm l h)
        (λ done t k.
          Returns-if (not done) (give_up (pos n)) rest Connects t (λ _. give_up-Connects n t k)
            (λ _. hrest t k))

  sys-IsJoining :
      {A : Type 0} (fd : ℤ) (call : os.World → A × os.World)
      → ((w : os.World) (m : ℕ) → laws.opened ((call w).1) m ≡ laws.opened w m)
      → (l : Link os) → IsJoining fd l
      → Returns (sys call l) (λ a t. IsJoining fd t)
  sys-IsJoining fd call e l h = record {
    socket_fd = h.socket_fd;
    connected = h.connected;
    owned = IsOwned-keep laws others fd l.world ((call l.world).1) (e l.world) h.owned;
  }

  bind_local-IsJoining :
      (fd : ℤ) (port : ℕ) (l : Link os)
      → IsJoining fd l
      → Returns (bind_local fd port l) (λ done t. IsJoining fd t)
  unfolding bind_local
  bind_local-IsJoining fd port l h =
      Returns-if (not (ltb 0 port)) (pure true) _ _ l (λ _. h)
        (λ _.
          sys-IsJoining fd (os.bind fd port) (laws.bind-opened fd port) _
            (sys-IsJoining fd (os.set_reuse_addr fd) (laws.set_reuse_addr-opened fd) l h))

  set_socket_timeout-IsJoining :
      (fd : ℤ) (option : Timeout) (timeout : ℕ) (l : Link os)
      → IsJoining fd l
      → Returns (set_socket_timeout fd option timeout l) (λ done t. IsJoining fd t)
  unfolding set_socket_timeout
  set_socket_timeout-IsJoining fd option timeout =
      sys-IsJoining fd (os.set_timeout fd option (timeout / 1000) (timeout % 1000 * 1000))
        (laws.set_timeout-opened fd option (timeout / 1000) (timeout % 1000 * 1000))

  join_end-Connects : (n : ℕ) (l : Link os) → IsJoining (pos n) l → Returns (join_end l) Connects
  unfolding join_end
  join_end-Connects n l h = (
    record {
      connected = ap is_open (sym h.socket_fd);
      owned = subst (λ fd. IsOwned laws others fd l.world) (sym h.socket_fd) h.owned;
    },
    refl,
  )

  -- `connect` behind the creation of the socket.
  join-Connects :
      (n : ℕ) (c : UdpConfig) (l : Link os)
      → IsJoining (pos n) l
      → Returns (join (pos n) c l) Connects
  unfolding join
  join-Connects n c = attempt n _ _ (bind_local-IsJoining (pos n) c.local_port) (
      attempt n _ _ (set_socket_timeout-IsJoining (pos n) receive_timeout_option _) (
        attempt n _ _ (set_socket_timeout-IsJoining (pos n) send_timeout_option _) (λ l h.
          Returns-if (not (os.is_address c.server_ip)) (give_up (pos n)) _ Connects l
            (λ _. give_up-Connects n l h)
            (λ _.
              attempt n (sys (os.connect (pos n) c.server_ip c.server_port)) _
                (sys-IsJoining (pos n) (os.connect (pos n) c.server_ip c.server_port)
                  (laws.connect-opened (pos n) c.server_ip c.server_port))
                (join_end-Connects n) l h))))

  -- From a client that is connected exactly when it has a descriptor, `connect` returns to such a
  -- client on every branch, and its result says whether the client is connected: no failure leaves a
  -- descriptor open.
  pub connect-IsValid :
      (l : Link os)
      → IsValid laws others l
      → Returns (connect l) (λ done t. IsValid laws others t × (t.client.connected ≡ done))
  unfolding connect
  connect-IsValid l h =
      Returns-if l.client.connected _ _ _ l (λ e. (h, e))
        (λ e. created ((os.socket l.world).0) ((os.socket l.world).1) e (new e))
    where
      new :
          l.client.connected ≡ false
          → IsOwned laws others ((os.socket l.world).0) ((os.socket l.world).1)
      new e = IsOwned-socket laws others l.client.socket_fd l.world (sym h.connected ∙ e) h.owned

      created :
          (fd : ℤ) (w : os.World)
          → l.client.connected ≡ false
          → IsOwned laws others fd w
          → Returns
              ((if not (is_open fd) then pure false else join fd l.client.config)
                (record { client = record l.client { socket_fd = fd }; world = w }))
              Connects
      created (pos n) w e k =
          join-Connects n l.client.config _ (record { socket_fd = refl; connected = e; owned = k })
      created (negsuc n) w e k = (record { connected = e; owned = k }, e)
