-- ===== src/Sockets.antt =====
-- src/utils/Bind.cpp, src/utils/CreateSocket.cpp, src/SocketProviders/*.cpp and
-- src/ResolveSourceAddress.cpp: the set-up of the sockets, as calls of the kernel.
pub mod Providers
pub mod Filter
pub mod Options
pub mod Source
use traceroute.Base.{
  ℕ, zero, suc, ◌-◌, ◌/◌, ◌%◌, ◌^◌, Bool, true, false, ◌==◌, if◌then◌else◌, Option, none, some,
  List, [], ◌∷◌, Bytes, length, store32, Outcome, ok, throw, ◌>>=◌, bind_interface_failed,
  bind_address_failed, socket_option_failed, connect_failed, getsockname_failed,
}
use traceroute.Address.{SocketAddress, family, size, is_v4, is_v6}
use traceroute.Kernel.{Kernel, is_negative}
use traceroute.Sender.{Socket, SocketExt, receive_role, send_role, join_roles}

-- `SOCK_RAW | SOCK_NONBLOCK`.
abbrev pub sock_raw_nonblock : ℕ
sock_raw_nonblock = 2051

abbrev pub sock_dgram : ℕ
sock_dgram = 2

-- `ICMP6_FILTER_SETBLOCKALL`: eight words of ones.
abbrev pub block_all : List ℕ
block_all =
    0xffffffff ∷ 0xffffffff ∷ 0xffffffff ∷ 0xffffffff ∷ 0xffffffff ∷ 0xffffffff ∷ 0xffffffff
    ∷ 0xffffffff ∷ []

unfoldable pub clear_bit : ℕ → ℕ → ℕ
clear_bit bit word = if word / 2 ^ bit % 2 == 1 then word - 2 ^ bit else word

unfoldable pub clear_in_word : ℕ → ℕ → List ℕ → List ℕ
clear_in_word index bit [] = []
clear_in_word zero bit (word ∷ words) = clear_bit bit word ∷ words
clear_in_word (suc index) bit (word ∷ words) = word ∷ clear_in_word index bit words

-- `ICMP6_FILTER_SETPASS`.
unfoldable pub set_pass : ℕ → List ℕ → List ℕ
unfolding clear_in_word clear_bit
set_pass type words = clear_in_word (type / 32) (type % 32) words

-- Echo reply, time exceeded and destination unreachable.
unfoldable pub icmp6_filter : List ℕ
unfolding set_pass
icmp6_filter = set_pass 1 (set_pass 3 (set_pass 129 block_all))

unfoldable pub words_bytes : List ℕ → Bytes
words_bytes [] = []
words_bytes (word ∷ words) = store32 word (words_bytes words)

-- The classes that implement `IProvideSockets`.
pub data Provider : Type 0 where
  icmp_provider tcp_provider udp_provider : Provider

module _ (k : Kernel) where
  -- `SO_BINDTODEVICE` of `SOL_SOCKET`.
  unfoldable pub bind_interface : ℕ → Bytes → k.World → Outcome k.World
  bind_interface fd name w =
      let (result, w') = k.setsockopt fd 1 25 name w in
      if is_negative result then throw bind_interface_failed else ok w'

  unfoldable pub bind_ip_address : ℕ → SocketAddress → k.World → Outcome k.World
  bind_ip_address fd address w =
      let (result, w') = k.bind fd address (size address) w in
      if is_negative result then throw bind_address_failed else ok w'

  unfoldable pub bind_if_named : ℕ → Option Bytes → k.World → Outcome k.World
  bind_if_named fd none w = ok w
  bind_if_named fd (some name) w = bind_interface fd name w

  unfoldable pub bind_to_ip_address_and_interface :
      ℕ → SocketAddress → Option Bytes → k.World → Outcome k.World
  unfolding bind_if_named bind_interface bind_ip_address
  bind_to_ip_address_and_interface fd address name w = do
    w' ← bind_if_named fd name w
    bind_ip_address fd address w'

  -- An option that is set for IPv6 only.
  unfoldable pub set_option_v6 : ℕ → SocketAddress → ℕ → ℕ → Bytes → k.World → Outcome k.World
  set_option_v6 fd address level option value w =
      let (result, w') = k.setsockopt fd level option value w in
      if is_v6 address
      then (if is_negative result then throw socket_option_failed else ok w')
      else ok w

  -- What the three functions share; the result of `socket` is not looked at.
  unfoldable pub setup_socket :
      ℕ → ℕ → ℕ → Bytes → SocketAddress → Option Bytes → k.World → Outcome (Socket × k.World)
  unfolding bind_to_ip_address_and_interface set_option_v6
  setup_socket protocol level option value address name w = do
    let (fd, w₁) = k.socket (family address) sock_raw_nonblock protocol w
    w₂ ← bind_to_ip_address_and_interface fd address name w₁
    w₃ ← set_option_v6 fd address level option value w₂
    ok (record { fd = fd; protocol = protocol }, w₃)

  unfoldable pub setup_icmp_raw_socket :
      SocketAddress → Option Bytes → k.World → Outcome (Socket × k.World)
  unfolding setup_socket icmp6_filter words_bytes
  setup_icmp_raw_socket address name w =
      setup_socket (if is_v4 address then 1 else 58) 58 1 (words_bytes icmp6_filter) address name w

  -- `IPV6_CHECKSUM` with the place of the checksum in the header.
  unfoldable pub setup_tcp_raw_socket :
      SocketAddress → Option Bytes → k.World → Outcome (Socket × k.World)
  unfolding setup_socket
  setup_tcp_raw_socket address name w = setup_socket 6 41 7 (store32 16 []) address name w

  unfoldable pub setup_udp_raw_socket :
      SocketAddress → Option Bytes → k.World → Outcome (Socket × k.World)
  unfolding setup_socket
  setup_udp_raw_socket address name w = setup_socket 17 41 7 (store32 6 []) address name w

  -- `createSockets` of the three providers.
  unfoldable pub create_icmp_sockets :
      SocketAddress → Option Bytes → k.World → Outcome (List SocketExt × k.World)
  unfolding setup_icmp_raw_socket
  create_icmp_sockets address name w = do
    (socket, w') ← setup_icmp_raw_socket address name w
    ok (record { socket = socket; role = join_roles receive_role send_role } ∷ [], w')

  unfoldable pub create_tcp_sockets :
      SocketAddress → Option Bytes → k.World → Outcome (List SocketExt × k.World)
  unfolding setup_icmp_raw_socket setup_tcp_raw_socket
  create_tcp_sockets address name w = do
    (icmp_socket, w₁) ← setup_icmp_raw_socket address name w
    (tcp_socket, w₂) ← setup_tcp_raw_socket address name w₁
    ok (
      record { socket = icmp_socket; role = receive_role }
          ∷ record { socket = tcp_socket; role = join_roles receive_role send_role }
          ∷ [],
      w₂,
    )

  unfoldable pub create_udp_sockets :
      SocketAddress → Option Bytes → k.World → Outcome (List SocketExt × k.World)
  unfolding setup_icmp_raw_socket setup_udp_raw_socket
  create_udp_sockets address name w = do
    (icmp_socket, w₁) ← setup_icmp_raw_socket address name w
    (udp_socket, w₂) ← setup_udp_raw_socket address name w₁
    ok (
      record { socket = icmp_socket; role = receive_role }
          ∷ record { socket = udp_socket; role = send_role }
          ∷ [],
      w₂,
    )

  unfoldable pub create_sockets :
      Provider → SocketAddress → Option Bytes → k.World → Outcome (List SocketExt × k.World)
  unfolding create_icmp_sockets create_tcp_sockets create_udp_sockets
  create_sockets icmp_provider address name w = create_icmp_sockets address name w
  create_sockets tcp_provider address name w = create_tcp_sockets address name w
  create_sockets udp_provider address name w = create_udp_sockets address name w

  -- The storage and the length that `getsockname` is given are not initialised: what they hold
  -- are arguments. The socket is closed only if all calls succeed.
  unfoldable pub resolve_source_address :
      SocketAddress → Option Bytes → SocketAddress → ℕ → k.World → Outcome (SocketAddress × k.World)
  unfolding bind_if_named bind_interface
  resolve_source_address destination name storage len w = do
    let (fd, w₁) = k.socket (family destination) sock_dgram 17 w
    w₂ ← bind_if_named fd name w₁
    let (connected, w₃) = k.connect fd destination (size destination) w₂
    if is_negative connected then throw connect_failed else (do
      let (result, address, _, w₄) = k.getsockname fd storage len w₃
      if is_negative result then throw getsockname_failed else ok (address, (k.close fd w₄).1))
