-- ===== src/Sockets/Providers.antt =====
-- The sockets of the three providers in the constructor of `DataSender`.
use traceroute.Base.{
  All, true, false, Ensures-cases, ℕ, ◌≡◌, refl, ◌∙◌, ap, ==_refl, Option, none, some, List, [],
  ◌∷◌, Bytes, ok, Ensures, returns, throws, Ensures-bind, Ensures-if, bind_interface_failed,
  bind_address_failed, socket_option_failed, arith,
}
use traceroute.Address.{family, size, SocketAddress, is_v6}
use traceroute.Kernel.{Kernel, is_negative}
use traceroute.Sockets.Options.{
  icmp_protocol, HasOption, IsConfigured, icmp-IsConfigured, tcp-IsConfigured, udp-IsConfigured,
}
use traceroute.Sender.{
  Socket, SocketExt, join_roles, has_role, DataSender, set_protocol, protocol_at, add_socket,
  add_sockets, make_data_sender,
}
use traceroute.Sockets.{
  sock_raw_nonblock, Provider, icmp_provider, tcp_provider, udp_provider, bind_interface,
  bind_ip_address, bind_if_named, bind_to_ip_address_and_interface, set_option_v6, setup_socket,
  setup_icmp_raw_socket, setup_tcp_raw_socket, setup_udp_raw_socket, create_icmp_sockets,
  create_tcp_sockets, create_udp_sockets, create_sockets,
}

-- The protocol that a provider sends with.
abbrev pub provider_protocol : Provider → SocketAddress → ℕ
provider_protocol icmp_provider address = icmp_protocol address
provider_protocol tcp_provider address = 6
provider_protocol udp_provider address = 17

-- On which sockets a sender of the provider receives.
abbrev IsReceiving : Provider → DataSender → Type 0
IsReceiving icmp_provider d = d.receiving_sockets ≡ d.sending_socket ∷ []
IsReceiving tcp_provider d = (fd : ℕ) × (d.receiving_sockets ≡ fd ∷ d.sending_socket ∷ [])
IsReceiving udp_provider d = (fd : ℕ) × (d.receiving_sockets ≡ fd ∷ [])

abbrev pub IsBound : (k : Kernel) → SocketAddress → ℕ → Type 0
IsBound k address fd = (w : k.World) × (is_negative (k.bind fd address (size address) w).0 ≡ false)

-- The descriptor is one that the kernel handed out for the family of the address and the protocol
-- of the socket, it was bound to the address, and it was given the options for the protocol.
abbrev pub IsOpened : (k : Kernel) → SocketAddress → Socket → Type 0
IsOpened k address s =
    ((w w' : k.World) × (k.socket (family address) sock_raw_nonblock s.protocol w ≡ (s.fd, w')))
    × IsBound k address s.fd
    × IsConfigured k address s

-- All sockets are opened; the constructor takes them, and sends with the provider's protocol.
abbrev pub IsWired : (k : Kernel) → Provider → SocketAddress → ℕ → List SocketExt → Type 0
IsWired k p address domain sockets =
    All (λ (s : SocketExt). IsOpened k address s.socket) sockets
    × (d : DataSender) × (make_data_sender sockets domain ≡ ok d)
    × (protocol_at d.sending_socket d.fd_to_protocol ≡ ok (provider_protocol p address))
    × IsReceiving p d

set_protocol_same :
    (fd protocol : ℕ) (m : List (ℕ × ℕ)) → protocol_at fd (set_protocol fd protocol m) ≡ ok protocol
unfolding protocol_at set_protocol
set_protocol_same fd protocol [] = rw (==_refl fd) refl
set_protocol_same fd protocol ((key, value) ∷ rest) =
    ground (arith, set_protocol_same fd protocol rest)

module _ (k : Kernel) where
  bind_if_named-Ensures :
      (fd : ℕ) (name : Option Bytes) (w : k.World)
      → Ensures (λ _. Unit {0}) (bind_if_named k fd name w)
  unfolding bind_if_named bind_interface
  bind_if_named-Ensures fd none w = returns _ tt
  bind_if_named-Ensures fd (some name) w =
      Ensures-if _ (throws bind_interface_failed) (returns _ tt)

  set_option_v6-Ensures :
      (fd : ℕ) (address : SocketAddress) (level option : ℕ) (value : Bytes) (w : k.World)
      → Ensures
          (λ _. is_v6 address ≡ true → HasOption k fd level option value)
          (set_option_v6 k fd address level option value w)
  unfolding set_option_v6
  set_option_v6-Ensures fd address level option value w =
      Ensures-cases (is_v6 address)
        (λ _.
          Ensures-cases (is_negative (k.setsockopt fd level option value w).0)
            (λ _. throws socket_option_failed) (λ b. returns _ (λ _. (w, b))))
        (λ n. returns _ (λ y. cc))

  setup_socket-Ensures :
      (protocol level option : ℕ) (value : Bytes) (address : SocketAddress) (name : Option Bytes)
      (w : k.World)
      → ((s : Socket)
          → s.protocol ≡ protocol
          → (is_v6 address ≡ true → HasOption k s.fd level option value)
          → IsConfigured k address s)
      → Ensures
          (λ (r : Socket × k.World). (r.0.protocol ≡ protocol) × IsOpened k address r.0)
          (setup_socket k protocol level option value address name w)
  unfolding setup_socket bind_to_ip_address_and_interface bind_ip_address
  setup_socket-Ensures protocol level option value address name w configured =
      Ensures-bind
        (Ensures-bind (bind_if_named-Ensures _ name _) (λ w₂ _.
          Ensures-cases {P = λ _. IsBound k address _} _ (λ _. throws bind_address_failed)
            (λ b. returns _ (w₂, b))))
        (λ w₂ bound.
          Ensures-bind (set_option_v6-Ensures _ address level option value w₂)
            (λ w₃ taken. returns _ (refl, ((w, _, refl), bound, configured _ refl taken))))

  -- Whatever the kernel answers, each provider throws or returns sockets that it got from the
  -- kernel for the family of the address and bound to it, and that the constructor of
  -- `DataSender` takes: it then sends with the provider's protocol, and receives on the sending
  -- socket alone (ICMP), on that and another (TCP), or on another (UDP). For an IPv6 address an
  -- ICMP socket was given a filter that hands on destination unreachable (1), time exceeded (3)
  -- and echo reply (129), and no other of the 256 types; on a TCP or UDP socket the kernel was
  -- asked to write the checksum, to byte 16 of the header or to byte 6.
  pub create_sockets-IsWired :
      (p : Provider) (address : SocketAddress) (name : Option Bytes) (domain : ℕ) (w : k.World)
      → Ensures
          (λ (r : List SocketExt × k.World). IsWired k p address domain r.0)
          (create_sockets k p address name w)
  unfolding create_sockets create_icmp_sockets create_tcp_sockets create_udp_sockets
      setup_icmp_raw_socket setup_tcp_raw_socket setup_udp_raw_socket make_data_sender add_sockets
      add_socket has_role join_roles
  create_sockets-IsWired icmp_provider address name domain w =
      Ensures-bind (setup_socket-Ensures _ _ _ _ address name w (icmp-IsConfigured k address))
        λ r (e, o).
          returns _ ((o, tt), _, refl, set_protocol_same r.0.fd r.0.protocol [] ∙ ap ok e, refl)
  create_sockets-IsWired tcp_provider address name domain w =
      Ensures-bind (setup_socket-Ensures _ _ _ _ address name w (icmp-IsConfigured k address))
        λ r (e, o).
          Ensures-bind (setup_socket-Ensures _ _ _ _ address name r.1 (tcp-IsConfigured k address))
            λ r' (e', o'). returns _ (
              (o, (o', tt)),
              _,
              refl,
              set_protocol_same r'.0.fd r'.0.protocol (set_protocol r.0.fd r.0.protocol [])
                  ∙ ap ok e',
              (_, refl),
            )
  create_sockets-IsWired udp_provider address name domain w =
      Ensures-bind (setup_socket-Ensures _ _ _ _ address name w (icmp-IsConfigured k address))
        λ r (e, o).
          Ensures-bind (setup_socket-Ensures _ _ _ _ address name r.1 (udp-IsConfigured k address))
            λ r' (e', o'). returns _ (
              (o, (o', tt)),
              _,
              refl,
              set_protocol_same r'.0.fd r'.0.protocol (set_protocol r.0.fd r.0.protocol [])
                  ∙ ap ok e',
              (_, refl),
            )
