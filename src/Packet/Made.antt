-- ===== src/Packet/Made.antt =====
-- When a factory throws, and what it returns otherwise.
use traceroute.Base.{
  ℕ, ◌<◌, ◌≡◌, ◌≢◌, ◌⊎◌, inl, inr, Outcome, ok, throw, ◌>>=◌, family_mismatch, Bool-cases,
}
use traceroute.Address.{SocketAddress, is_v4}
use traceroute.Packet.{
  Packet, Draw, Endpoints, PacketFactory, icmp_factory, tcp_factory, udp_factory, create_packet,
  factory_endpoints, create_icmp4_packet, create_icmp6_packet, create_tcp_packet, create_udp_packet,
}
use traceroute.Packet.Build.{make_endpoints_cases, IsProduct, create_packet-IsProduct}

bind_ok :
    {m : Outcome Endpoints} {e : Endpoints} (g : Endpoints → Packet)
    → m ≡ ok e
    → (p : Packet) × ((m >>= λ x. ok (g x)) ≡ ok p)
bind_ok {e} g h = (g e, rw h)

-- Throwing and returning, told by the families.
abbrev Cases : SocketAddress → SocketAddress → Outcome Packet → Type 0
Cases s d o =
    ((o ≡ throw family_mismatch) × (d.ss_family ≢ s.ss_family))
    ⊎ ((p : Packet) × (o ≡ ok p) × (d.ss_family ≡ s.ss_family))

icmp4-Cases : (s d : SocketAddress) (rand : ℕ) → Cases s d (create_icmp4_packet s d rand)
unfolding create_icmp4_packet
icmp4-Cases s d rand = elim (make_endpoints_cases s d) [
  | inl (e, n) ↦ inl (rw e, n)
  | inr (e, n) ↦
      let r : (p : Packet) × (create_icmp4_packet s d rand ≡ ok p) = bind_ok _ e in
      inr (r.0, r.1, n)
]

icmp6-Cases : (s d : SocketAddress) (rand : ℕ) → Cases s d (create_icmp6_packet s d rand)
unfolding create_icmp6_packet
icmp6-Cases s d rand = elim (make_endpoints_cases s d) [
  | inl (e, n) ↦ inl (rw e, n)
  | inr (e, n) ↦
      let r : (p : Packet) × (create_icmp6_packet s d rand ≡ ok p) = bind_ok _ e in
      inr (r.0, r.1, n)
]

create_packet_cases :
    (f : PacketFactory) (draw : Draw)
    → ((create_packet f draw ≡ throw family_mismatch)
        × ((factory_endpoints f).destination_address.ss_family
            ≢ (factory_endpoints f).source_address.ss_family))
      ⊎ ((p : Packet) × (create_packet f draw ≡ ok p)
          × ((factory_endpoints f).destination_address.ss_family
              ≡ (factory_endpoints f).source_address.ss_family))
unfolding create_packet
create_packet_cases (icmp_factory factory) draw = elim (Bool-cases (is_v4 factory.source)) [
  | inl v ↦ rw (v, create_packet) (icmp4-Cases factory.source factory.destination draw.rand0)
  | inr v ↦ rw (v, create_packet) (icmp6-Cases factory.source factory.destination draw.rand0)
]
create_packet_cases (tcp_factory factory) draw =
    elim (make_endpoints_cases factory.source factory.destination) [
      | inl (e, n) ↦ inl (rw e, n)
      | inr (e, n) ↦
          let r : (p : Packet) × (create_tcp_packet factory.source factory.destination factory.dport
                  draw
                ≡ ok p) =
            bind_ok _ e in
          inr (r.0, r.1, n)
    ]
create_packet_cases (udp_factory factory) draw =
    elim (make_endpoints_cases factory.source factory.destination) [
      | inl (e, n) ↦ inl (rw e, n)
      | inr (e, n) ↦
          let r : (p : Packet) × (create_udp_packet factory.source factory.destination factory.dport
                  draw
                ≡ ok p) =
            bind_ok _ e in
          inr (r.0, r.1, n)
    ]

pub create_packet-IsMade :
    (f : PacketFactory) (draw : Draw)
    → draw.garbage < 65536
    → ((create_packet f draw ≡ throw family_mismatch)
        × ((factory_endpoints f).destination_address.ss_family
            ≢ (factory_endpoints f).source_address.ss_family))
      ⊎ ((p : Packet) × (create_packet f draw ≡ ok p)
          × ((factory_endpoints f).destination_address.ss_family
              ≡ (factory_endpoints f).source_address.ss_family)
          × IsProduct f p)
create_packet-IsMade f draw g = elim (create_packet_cases f draw) [
  | inl h ↦ inl h
  | inr (p, e, same) ↦ inr (p, e, same, create_packet-IsProduct f draw p g e)
]
