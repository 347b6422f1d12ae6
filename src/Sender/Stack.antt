-- ===== src/Sender/Stack.antt =====
-- src/Traceroute.cpp, the constructor, and src/SystemClock.cpp: a tracer over a factory, a sender
-- on sockets and the clock.
use traceroute.Base.{
  ℕ, ◌≤◌, ◌<◌, ◌≡◌, refl, ap, inl, inr, ◌==◌, Option, none, some, List, [], ◌∷◌, Bytes, length, ok,
  ◌>>=◌, Ensures, returns, throws, Ensures-bind, Ensures-if, Ensures-map, Ensures-ok, IsDefined,
  fd_unknown, arith,
}
use traceroute.Packet.{
  Packet, Draw, PacketFactory, create_packet, factory_endpoints, get_destination_address,
}
use traceroute.Packet.Made.{create_packet-IsMade}
use traceroute.Kernel.{Kernel, IsKernel}
use traceroute.Tracer.{Env, IsEnv}
use traceroute.Sender.{
  DataSender, protocol_at, poll_any, poll_one, receive_from, try_receiving,
  get_any_socket_ready_to_receive, set_ttl, send_to, try_sending,
}

-- The draws of `rand()` for a packet leave the kernel alone and take no time back.
pub record IsRandom (k : Kernel) (laws : IsKernel k) (rand : k.World → Draw × k.World)
    : Type 0 where
  pub in_range : (w : k.World) → (rand w).0.garbage < 65536
  pub rand_time : (w : k.World) → laws.time w ≤ laws.time (rand w).1

-- `SystemClock::now`, the clock that the constructors of the tracers take if none is given.
abbrev pub system_clock_now : (k : Kernel) → k.World → ℕ × k.World
system_clock_now k w = k.now w

unfoldable pub make_env :
    (k : Kernel) → (k.World → Draw × k.World) → DataSender → PacketFactory → Env
make_env k rand d f = record {
  World = k.World;
  create_packet =
      λ w. let (draw, w') = rand w in create_packet f draw >>= (λ packet. ok (packet, w'));
  try_sending = try_sending k d;
  try_receiving = try_receiving k d;
  now = system_clock_now k;
}

protocol_at-IsDefined : (fd : ℕ) (m : List (ℕ × ℕ)) → IsDefined (protocol_at fd m)
unfolding protocol_at
protocol_at-IsDefined fd [] = throws fd_unknown
protocol_at-IsDefined fd ((key, value) ∷ rest) =
    Ensures-if (fd == key) (returns _ tt) (protocol_at-IsDefined fd rest)

module _ (k : Kernel) (laws : IsKernel k) (d : DataSender) where
  open laws use {time, setsockopt_time, poll_time, sendto_time, recvfrom_time, recvfrom_buffer}

  poll_any-time :
      (fds : List ℕ) (events timeout : ℕ) (w : k.World)
      → Ensures (λ r. time w < time r.1) (poll_any k fds events timeout w)
  unfolding poll_any
  poll_any-time fds events timeout w = Ensures-if _ (throws _) (returns _ (poll_time _ timeout w))

  receive_from-time :
      (fd : Option ℕ) (buffer : Bytes) (w : k.World)
      → Ensures
          (λ r. (time w ≤ time r.2) × (length r.1 ≡ length buffer))
          (receive_from k d fd buffer w)
  unfolding receive_from
  receive_from-time none buffer w = returns _ (omega arith, refl)
  receive_from-time (some fd) buffer w = Ensures-if _ (throws _) (
      Ensures-bind (protocol_at-IsDefined fd d.fd_to_protocol) (λ p _.
        returns _
          (recvfrom_time fd buffer (length buffer) w, recvfrom_buffer fd buffer (length buffer) w)))

  try_receiving-time :
      (buffer : Bytes) (timeout : ℕ) (w : k.World)
      → Ensures
          (λ r. (time w < time r.2) × (length r.1 ≡ length buffer))
          (try_receiving k d buffer timeout w)
  unfolding try_receiving get_any_socket_ready_to_receive
  try_receiving-time buffer timeout w =
      Ensures-bind (poll_any-time d.receiving_sockets _ timeout w)
        (λ r l. Ensures-map (receive_from-time r.0 buffer r.1) (λ x h. (omega arith, h.1)))

  set_ttl-time : (ttl : ℕ) (w : k.World) → Ensures (λ w'. time w ≤ time w') (set_ttl k d ttl w)
  unfolding set_ttl
  set_ttl-time ttl w = Ensures-if _ (throws _) (returns _ (setsockopt_time _ _ _ _ w))

  send_to-time :
      (packet : Packet) (w : k.World) → Ensures (λ r. time w ≤ time r.1) (send_to k d packet w)
  unfolding send_to
  send_to-time packet w = Ensures-if _ (throws _) (returns _ (sendto_time _ _ _ _ w))

  poll_one-time :
      (fd events timeout : ℕ) (w : k.World)
      → Ensures (λ r. time w < time r.1) (poll_one k fd events timeout w)
  unfolding poll_one
  poll_one-time fd events timeout w = Ensures-if _ (throws _) (returns _ (poll_time _ timeout w))

  try_sending-time :
      (packet : Packet) (ttl timeout : ℕ) (w : k.World)
      → Ensures (λ r. time w ≤ time r.1) (try_sending k d packet ttl timeout w)
  unfolding try_sending
  try_sending-time packet ttl timeout w = Ensures-bind (set_ttl-time ttl w) λ w₁ l.
      Ensures-if _ (throws _) (
        Ensures-bind (poll_one-time d.sending_socket _ timeout w₁) λ r m.
          Ensures-if r.0 (Ensures-map (send_to-time packet r.1) (λ x n. omega arith))
            (returns _ (omega arith)))

module _ (k : Kernel) (laws : IsKernel k) (rand : k.World → Draw × k.World)
    (g : IsRandom k laws rand) where
  create-Ensures :
      (f : PacketFactory) (w : k.World)
      → Ensures
          (λ (r : Packet × k.World).
            (get_destination_address r.0 ≡ (factory_endpoints f).destination_address)
            × (laws.time w ≤ laws.time r.1))
          (create_packet f (rand w).0 >>= (λ packet. ok (packet, (rand w).1)))
  unfolding get_destination_address
  create-Ensures f w = elim (create_packet-IsMade f (rand w).0 (g.in_range w)) [
    | inl (e, n) ↦ rw e (throws _)
    | inr (p, e, n, h) ↦
        rw e (returns _ (ap (λ x. x.destination_address) h.same_endpoints, g.rand_time w))
  ]

  -- A sender on the sockets of a kernel, with any factory, keeps what the tracers rely on: its
  -- calls return or throw, receiving takes time and keeps the length of the buffer, and the
  -- packets go to the destination of the factory.
  pub make_env-IsEnv :
      (d : DataSender) (f : PacketFactory)
      → IsEnv (make_env k rand d f) (factory_endpoints f).destination_address
  unfolding make_env
  make_env-IsEnv d f = record {
    time = laws.time;
    now_reads = laws.now_reads;
    create_defined = λ w. Ensures-map (create-Ensures f w) (λ _ _. tt);
    create_lem = λ w w' p e. Ensures-ok (create-Ensures f w) e;
    sending_defined = λ p ttl t w. Ensures-map (try_sending-time k laws d p ttl t w) (λ _ _. tt);
    sending_lem = λ p ttl t w w' sent e. Ensures-ok (try_sending-time k laws d p ttl t w) e;
    receiving_defined = λ b t w. Ensures-map (try_receiving-time k laws d b t w) (λ _ _. tt);
    receiving_lem = λ b b' t w w' r e. Ensures-ok (try_receiving-time k laws d b t w) e;
  }
