-- ===== src/Report/Machine.antt =====
-- Both tracers over a sender on the sockets of a kernel: from the report to the system calls.
use traceroute.Base.{
  ◌>>=◌, throw, sym, ap, subst, ◌∙◌, first_call, ok-injective, family_mismatch, ℕ, ◌≤◌, ◌≡◌, ◌⊎◌,
  inl, inr, true, some, List, [], ◌∷◌, All, Bytes, ok,
}
use traceroute.Address.{SocketAddress}
use traceroute.Packet.Build.{IsProduct}
use traceroute.Packet.Made.{create_packet-IsMade}
use traceroute.Packet.{create_packet, Packet, Draw, PacketFactory, factory_endpoints}
use traceroute.Response.{ResponseInfo, is_valid}
use traceroute.Probe.{ProbeResult, TracerouteResult}
use traceroute.Kernel.{Kernel, IsKernel}
use traceroute.Tracer.Origin.{IsAnswered, IsGivenUp, IsResult}
use traceroute.Sender.{SocketExt, DataSender, make_data_sender}
use traceroute.Sender.Polling.{Listed}
use traceroute.Sender.Roles.{Given, receiving_fds}
use traceroute.Sender.Receiving.{IsRead, try_receiving-Given}
use traceroute.Sender.Sending.{IsSent, try_sending-IsSent}
use traceroute.Sender.Stack.{IsRandom, make_env, make_env-IsEnv}
use traceroute.Fast.System.{Request}
use traceroute.Fast.Position.{IsRequest}
use traceroute.Report.AnyCall.{Answers, Answers-told}
use traceroute.Report.Promise.{IsToldHop}

-- The kernel took the bytes of a packet of the factory, after the hop limit was set to the hop's;
-- a message that the packet accepts was read by `recvfrom` from one of the sockets that receive,
-- or from descriptor 0, with the size and the sender that the call told and the protocol of that
-- socket; and the result reports its sender.
pub record IsDelivered (k : Kernel) (d : DataSender) (sockets : List SocketExt) (f : PacketFactory)
    (ttl : ℕ) (r : ProbeResult) : Type 0 where
  pub packet : Packet
  pub info : ResponseInfo
  pub room : Bytes
  pub buffer : Bytes
  pub before : k.World
  pub after : k.World
  pub polled : k.World
  pub received : k.World
  pub is_sent : IsSent k d packet ttl 5000 before after
  pub fd : ℕ
  pub given : Given fd info.protocol sockets
  pub listens : (fd ≡ 0) ⊎ Listed fd (receiving_fds sockets)
  pub is_read : IsRead k fd room polled info buffer received
  pub accepts : is_valid packet info buffer ≡ ok true
  pub product : IsProduct f packet
  pub succeeds : r.success ≡ true
  pub reports : r.response_sender ≡ some info.client

-- Where the packets of a factory go.
abbrev pub goal : PacketFactory → SocketAddress
goal f = (factory_endpoints f).destination_address

abbrev pub IsOutcome :
    (k : Kernel)
    → (k.World → Draw × k.World)
    → DataSender
    → List SocketExt
    → PacketFactory
    → ℕ
    → ℕ
    → ProbeResult
    → Type 0
IsOutcome k rand d sockets f timeout ttl r =
    IsDelivered k d sockets f ttl r ⊎ IsGivenUp (make_env k rand d f) (goal f) timeout ttl r

abbrev pub IsOutcomeHop :
    (k : Kernel)
    → (k.World → Draw × k.World)
    → DataSender
    → List SocketExt
    → PacketFactory
    → ℕ
    → TracerouteResult
    → Type 0
IsOutcomeHop k rand d sockets f timeout r =
    All (IsOutcome k rand d sockets f timeout r.ttl) r.probe_results

module _ (k : Kernel) (laws : IsKernel k) (rand : k.World → Draw × k.World)
    (g : IsRandom k laws rand) (d : DataSender) (f : PacketFactory) (sockets : List SocketExt)
    (family : ℕ) (made : make_data_sender sockets family ≡ ok d) (timeout : ℕ) where
  created-IsProduct :
      (p : Packet) (w w' : k.World)
      → ◌>>=◌ {T = Packet × k.World}
          (create_packet f (rand w).0)
          (λ packet. ok (packet, (rand w).1))
        ≡ ok (p, w')
      → IsProduct f p
  created-IsProduct p w w' e =
      let (q, c, n) = first_call (create_packet f (rand w).0) e in
      let same : q ≡ p = ap (λ (r : Packet × k.World). r.0) (ok-injective _ _ n) in
      elim (create_packet-IsMade f (rand w).0 (g.in_range w)) [
        | inl (t, _) ↦ let never : throw family_mismatch ≡ ok q = sym t ∙ c in cc never
        | inr (p', m, _, h) ↦ subst (IsProduct f) (ok-injective _ _ (sym m ∙ c) ∙ same) h
      ]

  answered-IsDelivered :
      (ttl : ℕ) (r : ProbeResult)
      → IsAnswered (make_env k rand d f) (goal f) ttl r
      → IsDelivered k d sockets f ttl r
  unfolding make_env
  answered-IsDelivered ttl r h =
      let (w, w', sent) = h.is_sent in
      let (before, t, v, v', came) = h.has_come in
      let (fd, given, listens, (polled, is_read)) =
        try_receiving-Given k laws sockets family t d before h.buffer v v' h.info made came in
      record {
        packet = h.packet;
        info = h.info;
        room = before;
        buffer = h.buffer;
        before = w;
        after = w';
        polled = polled;
        received = v';
        is_sent = try_sending-IsSent k d h.packet ttl 5000 w w' sent;
        fd = fd;
        given = given;
        listens = listens;
        is_read = is_read;
        accepts = h.accepts;
        product = created-IsProduct h.packet h.for_target.1.0 h.for_target.1.1 h.for_target.1.2;
        succeeds = h.succeeds;
        reports = h.reports;
      }

  probes_lem :
      (ttl : ℕ) (rs : List ProbeResult)
      → All (IsResult (make_env k rand d f) (goal f) timeout ttl) rs
      → All (IsOutcome k rand d sockets f timeout ttl) rs
  probes_lem ttl [] h = tt
  probes_lem ttl (r ∷ rs) (inl a, h) = (inl (answered-IsDelivered ttl r a), probes_lem ttl rs h)
  probes_lem ttl (r ∷ rs) (inr g, h) = (inr g, probes_lem ttl rs h)

  hops_lem :
      (results : List TracerouteResult)
      → All (IsToldHop (make_env k rand d f) (goal f) timeout) results
      → All (IsOutcomeHop k rand d sockets f timeout) results
  hops_lem [] h = tt
  hops_lem (r ∷ rest) (now, h) = (probes_lem r.ttl r.probe_results now, hops_lem rest h)

-- On a kernel that keeps `IsKernel`, with draws of `rand` that keep `IsRandom`, a sender that its
-- constructor made of sockets, and a factory: whichever tracer runs, in any call on an object,
-- whatever calls came before, if at least one probe for a hop and a range of hops that does not
-- wrap around is asked for, each probe of the hops that `beginProbing` returns was given up or
-- delivered. Given up means that a packet that the factory made for its destination was sent, and
-- that, between two readings of the clock, more than the timeout less 10 microseconds passed.
-- Delivered means that a packet that the factory made left the sending socket after the hop limit
-- was set to the hop's, that a message that this packet accepts was read by `recvfrom` from one
-- of the sockets that receive, or from descriptor 0, and that the result reports the sender that
-- the call told.
pub Answers-IsDelivered :
    (k : Kernel) (laws : IsKernel k) (rand : k.World → Draw × k.World) (d : DataSender)
    (f : PacketFactory) (sockets : List SocketExt) (family : ℕ) (q : Request)
    (results : List TracerouteResult)
    → IsRandom k laws rand
    → make_data_sender sockets family ≡ ok d
    → IsRequest q
    → 1 ≤ q.retries
    → Answers (make_env k rand d f) q results
    → All (IsOutcomeHop k rand d sockets f q.timeout) results
Answers-IsDelivered k laws rand d f sockets family q results g made range o answered =
    hops_lem k laws rand g d f sockets family made q.timeout results (
      Answers-told (make_env k rand d f) (goal f) q results (make_env-IsEnv k laws rand g d f) range
        o answered)
