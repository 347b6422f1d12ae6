-- ===== src/Packet/Build.antt =====
-- What the factories build.
use traceroute.Base.{
  ℕ, ◌%◌, ◌<◌, ◌≤◌, ◌≡◌, ◌≢◌, refl, ◌⊎◌, inl, inr, Bool, true, false, if◌then◌else◌, htons, ntohl,
  htons-lt, htonl-lt, ok, throw, family_mismatch, arith, Bool-cases, first_call, ok-injective,
  subst,
}
use traceroute.Address.{SocketAddress, is_v4, af_inet}
use traceroute.Address.Equality.{is_v4_iff}
use traceroute.Header.{IsIcmpHeader, IsTcpHeader, IsUdpHeader, sizeof_udp}
use traceroute.Checksum.Verify.{
  icmp_header_checksum-lt, tcp_header_checksum-lt, udp_header_checksum-lt,
}
use traceroute.Packet.{
  Packet, icmp, tcp, udp, Draw, Endpoints, PacketFactory, icmp_factory, tcp_factory, udp_factory,
  create_packet, factory_endpoints, packet_endpoints, create_icmp4_packet, create_icmp6_packet,
  icmp_header_of, tcp_header_of, udp_header_of, make_endpoints, icmp_echo, icmp6_echo_request,
}

-- The fields of a header are in range.
abbrev pub FieldsFit : Packet → Type 0
FieldsFit (icmp p) = IsIcmpHeader p.icmp_header
FieldsFit (tcp p) = IsTcpHeader p.tcp_header
FieldsFit (udp p) = IsUdpHeader p.udp_header

-- The packet that a factory stands for, but for the random parts and the checksum: its class, its
-- type or ports, and the constant fields, each in host order.
abbrev pub IsBuilt : PacketFactory → Packet → Type 0
IsBuilt (icmp_factory factory) (icmp p) =
    (factory.source.ss_family ≡ af_inet → p.icmp_header.type ≡ icmp_echo)
    × (factory.source.ss_family ≢ af_inet → p.icmp_header.type ≡ icmp6_echo_request)
    × (p.icmp_header.code ≡ 0)
    × (p.icmp_header.sequence ≡ 0)
IsBuilt (tcp_factory factory) (tcp p) =
    (50000 ≤ htons p.tcp_header.source)
    × (htons p.tcp_header.source ≤ 65000)
    × (htons p.tcp_header.dest ≡ factory.dport % 65536)
    × (ntohl p.tcp_header.seq < 65001)
    × (p.tcp_header.th_off ≡ 5)
    × (p.tcp_header.th_flags ≡ 2)
IsBuilt (udp_factory factory) (udp p) =
    (50000 ≤ htons p.udp_header.source)
    × (htons p.udp_header.source ≤ 65000)
    × (htons p.udp_header.dest ≡ factory.dport % 65536)
    × (htons p.udp_header.len ≡ sizeof_udp)
IsBuilt f p = ⊥

-- What a factory promises of the packet it returns.
pub record IsProduct (f : PacketFactory) (p : Packet) : Type 0 where
  pub same_endpoints : packet_endpoints p ≡ factory_endpoints f
  pub built : IsBuilt f p
  pub fits : FieldsFit p

pub make_endpoints-eq-ok :
    (s d : SocketAddress) (e : Endpoints)
    → make_endpoints s d ≡ ok e
    → e ≡ record { source_address = s; destination_address = d }
unfolding make_endpoints
make_endpoints-eq-ok s d e h = ground arith

pub make_endpoints_cases :
    (s d : SocketAddress)
    → ((make_endpoints s d ≡ throw family_mismatch) × (d.ss_family ≢ s.ss_family))
      ⊎ ((make_endpoints s d ≡ ok (record { source_address = s; destination_address = d }))
          × (d.ss_family ≡ s.ss_family))
unfolding make_endpoints
make_endpoints_cases s d = ground arith

-- A checksum that is computed for an IPv4 source and left 0 for any other fits its field.
checksum_or_zero : (b : Bool) (c : ℕ) → c < 65536 → (if b then c else 0) < 65536
checksum_or_zero true c h = h
checksum_or_zero false c h = omega arith

pub IsIcmpHeader-icmp_header_of :
    (type rand c : ℕ)
    → type < 256
    → c < 65536
    → IsIcmpHeader (record (icmp_header_of type rand) { checksum = c })
unfolding icmp_header_of
IsIcmpHeader-icmp_header_of type rand c h k = omega (arith, htons-lt (rand % 65536))

icmp4-IsProduct :
    (s d : SocketAddress) (rand : ℕ) (p : Packet)
    → is_v4 s ≡ true
    → create_icmp4_packet s d rand ≡ ok p
    → IsProduct (icmp_factory (record { source = s; destination = d })) p
unfolding create_icmp4_packet
icmp4-IsProduct s d rand p v h =
    let (e, m, q) = first_call (make_endpoints s d) h in
    subst (IsProduct (icmp_factory (record { source = s; destination = d }))) (ok-injective _ p q)
      (record {
        same_endpoints = make_endpoints-eq-ok s d e m;
        built = (λ _. refl, λ n. absurd (n ((is_v4_iff s).0 v)), refl, refl);
        fits =
            IsIcmpHeader-icmp_header_of icmp_echo rand _ (omega arith) (icmp_header_checksum-lt _);
      })

icmp6-IsProduct :
    (s d : SocketAddress) (rand : ℕ) (p : Packet)
    → is_v4 s ≡ false
    → create_icmp6_packet s d rand ≡ ok p
    → IsProduct (icmp_factory (record { source = s; destination = d })) p
unfolding create_icmp6_packet
icmp6-IsProduct s d rand p v h =
    let (e, m, q) = first_call (make_endpoints s d) h in
    subst (IsProduct (icmp_factory (record { source = s; destination = d }))) (ok-injective _ p q)
      (record {
        same_endpoints = make_endpoints-eq-ok s d e m;
        built = (λ e'. cc (v, (is_v4_iff s).1 e'), λ _. refl, refl, refl);
        fits = IsIcmpHeader-icmp_header_of icmp6_echo_request rand 0 (omega arith) (omega arith);
      })

pub create_packet-IsProduct :
    (f : PacketFactory) (draw : Draw) (p : Packet)
    → draw.garbage < 65536
    → create_packet f draw ≡ ok p
    → IsProduct f p
unfolding create_packet htons ntohl
create_packet-IsProduct (icmp_factory factory) draw p g h =
    elim (Bool-cases (is_v4 factory.source)) [
      | inl v ↦
          icmp4-IsProduct factory.source factory.destination draw.rand0 p v
            (rw (v, create_packet) at h)
      | inr v ↦
          icmp6-IsProduct factory.source factory.destination draw.rand0 p v
            (rw (v, create_packet) at h)
    ]
create_packet-IsProduct (tcp_factory factory) draw p g h =
    let (e, m, q) = first_call (make_endpoints factory.source factory.destination) h in
    subst (IsProduct (tcp_factory factory)) (ok-injective _ p q) (record {
      same_endpoints = make_endpoints-eq-ok factory.source factory.destination e m;
      built = omega arith;
      fits = omega (
        arith,
        htons-lt,
        htonl-lt,
        checksum_or_zero (is_v4 factory.source) _ (
            tcp_header_checksum-lt (tcp_header_of factory.dport draw) factory.source
              factory.destination),
      );
    })
create_packet-IsProduct (udp_factory factory) draw p g h =
    let (e, m, q) = first_call (make_endpoints factory.source factory.destination) h in
    subst (IsProduct (udp_factory factory)) (ok-injective _ p q) (record {
      same_endpoints = make_endpoints-eq-ok factory.source factory.destination e m;
      built = omega arith;
      fits = omega (
        arith,
        htons-lt,
        checksum_or_zero (is_v4 factory.source) _ (
            udp_header_checksum-lt (udp_header_of factory.dport draw) factory.source
              factory.destination),
      );
    })
