-- ===== src/Examples/Kernels.antt =====
-- A machine with an ICMP and a UDP socket, on which every socket is ready at once, and one on
-- which the standard input is closed.
use traceroute.Base.{
  ℕ, ◌+◌, ◌≡◌, ◌⊎◌, refl, ◌==◌, ◌-◌, ◌^◌, leb, if◌then◌else◌, some, none, List, [], ◌∷◌, ok, throw,
  Ensures, All, ◌≢◌, length, recvfrom_failed, second_sending_socket, fd_unknown, arith,
}
use traceroute.Packet.{Packet, PacketFactory, udp_factory, Draw}
use traceroute.Kernel.{Kernel, IsKernel, IsPolled, PollFd, pollin, is_negative_size}
use traceroute.Tracer.{IsEnv}
use traceroute.Sockets.{
  tcp_provider, udp_provider, create_sockets, create_udp_sockets, setup_icmp_raw_socket,
  setup_udp_raw_socket, setup_socket, bind_to_ip_address_and_interface, bind_if_named,
  bind_ip_address, set_option_v6,
}
use traceroute.Sockets.Providers.{IsWired, create_sockets-IsWired}
use traceroute.Sender.{
  SocketExt, DataSender, has_role, join_roles, set_protocol, protocol_at, add_socket, add_sockets,
  make_data_sender, try_receiving, get_any_socket_ready_to_receive, poll_any, pollfds, zero_entries,
  find_ready, receive_from,
}
use traceroute.Sender.Roles.{IsClash, sending_fds, receiving_fds}
use traceroute.Sender.Made.{IsMade, make_data_sender-IsMade}
use traceroute.Sender.Hangup.{IsHungUp, try_receiving_hangup}
use traceroute.Address.{family, is_v4, is_v6}
use traceroute.Sender.Stack.{IsRandom, make_env, make_env-IsEnv}
use traceroute.Examples.Hosts.{home, server, draw, zeros, from_server}
use traceroute.Examples.Traces.{answer, length-answer}

-- Every entry that is not for descriptor 0 has something to read.
abbrev mark : List PollFd → List PollFd
mark [] = []
mark (p ∷ ps) =
    record { fd = p.fd; events = p.events; revents = if p.fd == 0 then 0 else 1 } ∷ mark ps

abbrev mark_all : List PollFd → List PollFd
mark_all [] = []
mark_all (p ∷ ps) = record { fd = p.fd; events = p.events; revents = 16 } ∷ mark_all ps

mark-IsPolled : (fds : List PollFd) → IsPolled fds (mark fds)
mark-IsPolled [] = tt
mark-IsPolled (p ∷ ps) = (refl, mark-IsPolled ps)

abbrev machine_with : (List PollFd → List PollFd) → Kernel
machine_with polled = record {
  World = ℕ;
  socket = λ family type protocol w.
      (if family == 2 then (if protocol == 1 then 3 else 4) else 2 ^ 32 - 1, w);
  setsockopt = λ fd level option value w. (0, w);
  bind = λ fd address size w. (0, w);
  connect = λ fd address size w. (if leb (2 ^ 31) fd then 2 ^ 32 - 1 else 0, w);
  getsockname = λ fd storage len w. (0, home, len, w);
  close = λ fd w. (0, w);
  poll = λ fds t w. (1, polled fds, w + 1000000);
  sendto = λ fd bytes address size w. (8, w);
  recvfrom = λ fd buffer size w. (56, answer buffer, server, w);
  now = λ w. (w, w);
}

abbrev pub machine : Kernel
machine = machine_with mark

pub machine-IsKernel : IsKernel machine
machine-IsKernel = record {
  time = λ w. w;
  now_reads = λ w. (omega arith, omega arith);
  setsockopt_time = λ fd level option value w. omega arith;
  poll_time = λ fds t w. omega arith;
  poll_fds = λ fds t w. mark-IsPolled fds;
  sendto_time = λ fd b a n w. omega arith;
  recvfrom_time = λ fd b n w. omega arith;
  recvfrom_buffer = λ fd b n w. length-answer b;
}

-- The sockets of the UDP provider.
abbrev pub two_sockets : List SocketExt
two_sockets =
    record { socket = record { fd = 3; protocol = 1 }; role = 1 }
    ∷ record { socket = record { fd = 4; protocol = 17 }; role = 2 }
    ∷ []

abbrev pub sender : DataSender
sender = record {
  fd_to_protocol = (3, 1) ∷ (4, 17) ∷ [];
  receiving_sockets = 3 ∷ [];
  sending_socket = 4;
  family = 2;
}

pub sender-made : make_data_sender two_sockets 2 ≡ ok sender
unfolding make_data_sender add_sockets add_socket has_role set_protocol
sender-made = refl

pub two_sockets-created : create_sockets machine udp_provider home none 0 ≡ ok (two_sockets, 0)
unfolding create_sockets create_udp_sockets setup_icmp_raw_socket setup_udp_raw_socket setup_socket
    bind_to_ip_address_and_interface bind_if_named bind_ip_address set_option_v6 is_v4 is_v6 family
    join_roles has_role
two_sockets-created = refl

-- Two sockets that send, the first on descriptor 0.
abbrev zero_first : List SocketExt
zero_first =
    record { socket = record { fd = 0; protocol = 1 }; role = 3 }
    ∷ record { socket = record { fd = 4; protocol = 17 }; role = 2 }
    ∷ []

zero_first-made :
    make_data_sender zero_first 2
    ≡ ok (record {
      fd_to_protocol = (0, 1) ∷ (4, 17) ∷ [];
      receiving_sockets = 0 ∷ [];
      sending_socket = 4;
      family = 2;
    })
unfolding make_data_sender add_sockets add_socket has_role set_protocol
zero_first-made = refl

make_data_sender-IsMade_example :
    ((make_data_sender zero_first 2 ≡ throw second_sending_socket)
      × IsClash 0 (sending_fds zero_first))
    ⊎ ((d : DataSender) × (make_data_sender zero_first 2 ≡ ok d) × IsMade zero_first 2 d)
make_data_sender-IsMade_example = make_data_sender-IsMade zero_first 2

sender-protocol : protocol_at 4 sender.fd_to_protocol ≡ ok 17
unfolding protocol_at
sender-protocol = refl

sender-receives :
    try_receiving machine sender (zeros 200) 5 0
    ≡ ok (some (from_server 1 56), answer (zeros 200), 1000000)
unfolding try_receiving get_any_socket_ready_to_receive poll_any pollfds zero_entries find_ready
    receive_from protocol_at
sender-receives = refl

abbrev closed_input : Kernel
closed_input = machine_with mark_all

mark_all-IsPolled : (fds : List PollFd) → IsPolled fds (mark_all fds)
mark_all-IsPolled [] = tt
mark_all-IsPolled (p ∷ ps) = (refl, mark_all-IsPolled ps)

closed_input-IsKernel : IsKernel closed_input
closed_input-IsKernel = record {
  time = λ w. w;
  now_reads = λ w. (omega arith, omega arith);
  setsockopt_time = λ fd level option value w. omega arith;
  poll_time = λ fds t w. omega arith;
  poll_fds = λ fds t w. mark_all-IsPolled fds;
  sendto_time = λ fd b a n w. omega arith;
  recvfrom_time = λ fd b n w. omega arith;
  recvfrom_buffer = λ fd b n w. length-answer b;
}

mark_all-event : (ps : List PollFd) → All (λ (q : PollFd). q.fd ≡ 0 → q.revents ≢ 0) (mark_all ps)
mark_all-event [] = tt
mark_all-event (p ∷ ps) = (λ z e. omega arith, mark_all-event ps)

closed_input-IsHungUp : IsHungUp closed_input
closed_input-IsHungUp = record {
  event = λ ps t w. mark_all-event ps;
  counted = λ ps t w z. (omega arith, omega arith);
}

sender-hears : receiving_fds two_sockets ≡ 3 ∷ []
unfolding has_role
sender-hears = refl

try_receiving_hangup_example : try_receiving closed_input sender (zeros 200) 5 0 ≡ (
    if is_negative_size
      (closed_input.recvfrom 0
        (zeros 200)
        (length (zeros 200))
        (closed_input.poll (pollfds pollin (3 ∷ [])) 5 0).2).0
    then throw recvfrom_failed
    else throw fd_unknown)
try_receiving_hangup_example =
    try_receiving_hangup closed_input closed_input-IsKernel closed_input-IsHungUp two_sockets 2
      sender 3 [] (zeros 200) 5 0 sender-made sender-hears
      (λ e. omega arith, (λ e. omega arith, tt))

abbrev pub one_draw : ℕ → Draw × ℕ
one_draw w = (draw, w)

pub one_draw-IsRandom : IsRandom machine machine-IsKernel one_draw
one_draw-IsRandom = record { in_range = λ w. omega arith; rand_time = λ w. omega arith }

make_env-IsEnv_example :
    IsEnv
      (make_env machine one_draw sender
        (udp_factory (record { source = home; destination = server; dport = 33434 })))
      server
make_env-IsEnv_example =
    make_env-IsEnv machine machine-IsKernel one_draw one_draw-IsRandom sender
      (udp_factory (record { source = home; destination = server; dport = 33434 }))

abbrev datagrams : PacketFactory
datagrams = udp_factory (record { source = home; destination = server; dport = 33434 })

create_sockets-IsWired_example :
    Ensures
      (λ (r : List SocketExt × ℕ). IsWired machine tcp_provider home 2 r.0)
      (create_sockets machine tcp_provider home none 0)
create_sockets-IsWired_example = create_sockets-IsWired machine tcp_provider home none 2 0
