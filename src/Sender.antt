-- ===== src/Sender.antt =====
-- src/DataSender.cpp, src/utils/Poll.cpp and include/Traceroute/Socket.hpp: the sender over
-- sockets.
pub mod Polling
pub mod Hangup
pub mod Stack
pub mod Roles
pub mod Extension
pub mod Made
pub mod Receiving
pub mod Sending
use traceroute.Base.{
  ℕ, zero, suc, ◌+◌, ◌/◌, ◌%◌, Bool, true, false, not, ◌||◌, ◌==◌, ltb, leb, if◌then◌else◌, Option,
  none, some, List, [], ◌∷◌, ◌++◌, map, Bytes, length, Outcome, ok, throw, ◌>>=◌,
  second_sending_socket, store32, family_of_address, ttl_not_set, sendto_failed, recvfrom_failed,
  poll_failed, fd_unknown,
}
use traceroute.Address.{SocketAddress, family, size, af_inet}
use traceroute.Packet.{Packet, serialize, get_destination_address}
use traceroute.Response.{ResponseInfo}
use traceroute.Kernel.{Kernel, PollFd, pollin, pollout, is_negative, is_negative_size}

pub record Socket : Type 0 where
  pub fd : ℕ
  pub protocol : ℕ

-- `Role` is a set of bits.
abbrev pub receive_role : ℕ
receive_role = 1

abbrev pub send_role : ℕ
send_role = 2

pub record SocketExt : Type 0 where
  pub socket : Socket
  pub role : ℕ

-- `operator&`, with one bit on the right.
unfoldable pub has_role : ℕ → ℕ → Bool
has_role role flag = (role / flag) % 2 == 1

-- `operator|`.
unfoldable pub join_roles : ℕ → ℕ → ℕ
unfolding has_role
join_roles a b =
    (if has_role a 1 || has_role b 1 then 1 else 0)
    + (if has_role a 2 || has_role b 2 then 2 else 0)

pub record DataSender : Type 0 where
  pub fd_to_protocol : List (ℕ × ℕ)
  pub receiving_sockets : List ℕ
  pub sending_socket : ℕ
  pub family : ℕ

-- `fdToProtocol[fd] = protocol`.
unfoldable pub set_protocol : ℕ → ℕ → List (ℕ × ℕ) → List (ℕ × ℕ)
set_protocol fd protocol [] = (fd, protocol) ∷ []
set_protocol fd protocol ((key, value) ∷ rest) =
    if fd == key
    then (key, protocol) ∷ rest
    else if ltb fd key
    then (fd, protocol) ∷ (key, value) ∷ rest
    else (key, value) ∷ set_protocol fd protocol rest

-- `fdToProtocol.at(fd)`.
unfoldable pub protocol_at : ℕ → List (ℕ × ℕ) → Outcome ℕ
protocol_at fd [] = throw fd_unknown
protocol_at fd ((key, value) ∷ rest) = if fd == key then ok value else protocol_at fd rest

-- The body of the loop of the constructor. A sending socket counts as there if it is not 0.
unfoldable pub add_socket : SocketExt → DataSender → Outcome DataSender
unfolding has_role set_protocol
add_socket s d =
    let receiving =
      if has_role s.role receive_role
      then d.receiving_sockets ++ (s.socket.fd ∷ [])
      else d.receiving_sockets in
    let protocols = set_protocol s.socket.fd s.socket.protocol d.fd_to_protocol in
    if has_role s.role send_role
    then (if not (d.sending_socket == 0)
        then throw second_sending_socket
        else ok (record {
          fd_to_protocol = protocols;
          receiving_sockets = receiving;
          sending_socket = s.socket.fd;
          family = d.family;
        }))
    else ok (record {
      fd_to_protocol = protocols;
      receiving_sockets = receiving;
      sending_socket = d.sending_socket;
      family = d.family;
    })

unfoldable pub add_sockets : List SocketExt → DataSender → Outcome DataSender
unfolding add_socket
add_sockets [] d = ok d
add_sockets (s ∷ rest) d = do d' ← add_socket s d; add_sockets rest d'

-- `DataSender::DataSender`.
unfoldable pub make_data_sender : List SocketExt → ℕ → Outcome DataSender
unfolding add_sockets
make_data_sender sockets family =
    add_sockets sockets
      (record { fd_to_protocol = []; receiving_sockets = []; sending_socket = 0; family = family })

-- The entry that `pollfds{fds.size()}` makes, and that of a descriptor.
abbrev pub zero_entry : PollFd
zero_entry = record { fd = 0; events = 0; revents = 0 }

abbrev pub entry : ℕ → ℕ → PollFd
entry events fd = record { fd = fd; events = events; revents = 0 }

unfoldable pub zero_entries : List ℕ → List PollFd
zero_entries [] = []
zero_entries (fd ∷ fds) = zero_entry ∷ zero_entries fds

-- `pollfds` as the call of `poll` is given it.
unfoldable pub pollfds : ℕ → List ℕ → List PollFd
unfolding zero_entries
pollfds events fds = zero_entries fds ++ map (entry events) fds

unfoldable pub find_ready : List PollFd → Option ℕ
find_ready [] = none
find_ready (p ∷ ps) = if p.revents == 0 then find_ready ps else some p.fd

module _ (k : Kernel) where
  -- `Poll` of several descriptors.
  unfoldable pub poll_any : List ℕ → ℕ → ℕ → k.World → Outcome (Option ℕ × k.World)
  poll_any fds events timeout w =
      let (result, polled, w') = k.poll (pollfds events fds) timeout w in
      if is_negative result
      then throw poll_failed
      else ok (if ltb 0 result then find_ready polled else none, w')

  -- `Poll` of one descriptor.
  unfoldable pub poll_one : ℕ → ℕ → ℕ → k.World → Outcome (Bool × k.World)
  poll_one fd events timeout w =
      let (result, polled, w') = k.poll (entry events fd ∷ []) timeout w in
      if is_negative result then throw poll_failed else ok (not (result == 0), w')

  unfoldable pub get_any_socket_ready_to_receive :
      DataSender → ℕ → k.World → Outcome (Option ℕ × k.World)
  unfolding poll_any
  get_any_socket_ready_to_receive d timeout w = poll_any d.receiving_sockets pollin timeout w

  -- `if (fd)` of `tryReceiving`.
  unfoldable pub receive_from :
      DataSender → Option ℕ → Bytes → k.World → Outcome (Option ResponseInfo × Bytes × k.World)
  receive_from d none buffer w = ok (none, buffer, w)
  receive_from d (some fd) buffer w =
      let (size, buffer', client, w') = k.recvfrom fd buffer (length buffer) w in
      if is_negative_size size then throw recvfrom_failed else (do
        protocol ← protocol_at fd d.fd_to_protocol
        ok (some (record { client = client; protocol = protocol; size = size }), buffer', w'))

  unfoldable pub try_receiving :
      DataSender → Bytes → ℕ → k.World → Outcome (Option ResponseInfo × Bytes × k.World)
  unfolding receive_from
  try_receiving d buffer timeout w = do
    (fd, w') ← get_any_socket_ready_to_receive d timeout w
    receive_from d fd buffer w'

  -- `IP_TTL` of `IPPROTO_IP`, or `IPV6_UNICAST_HOPS` of `IPPROTO_IPV6`; the value is an `int`.
  unfoldable pub set_ttl : DataSender → ℕ → k.World → Outcome k.World
  set_ttl d ttl w =
      let level = if d.family == af_inet then 0 else 41 in
      let option = if d.family == af_inet then 2 else 16 in
      let (result, w') = k.setsockopt d.sending_socket level option (store32 ttl []) w in
      if is_negative result then throw ttl_not_set else ok w'

  -- `sendto` and what `trySending` makes of its result.
  unfoldable pub send_to : DataSender → Packet → k.World → Outcome (Bool × k.World)
  send_to d packet w =
      let address = get_destination_address packet in
      let (result, w') = k.sendto d.sending_socket (serialize packet) address (size address) w in
      if is_negative_size result then throw sendto_failed else ok (not (result == 0), w')

  unfoldable pub try_sending : DataSender → Packet → ℕ → ℕ → k.World → Outcome (Bool × k.World)
  unfolding set_ttl send_to poll_one
  try_sending d packet ttl timeout w = do
    w₁ ← set_ttl d ttl w
    if not (d.family == family (get_destination_address packet))
        then throw family_of_address
        else (do
          (ready, w₂) ← poll_one d.sending_socket pollout timeout w₁
          if ready then send_to d packet w₂ else ok (false, w₂))
