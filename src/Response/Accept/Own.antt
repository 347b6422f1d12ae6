-- ===== src/Response/Accept/Own.antt =====
-- From the factory to the validator: the answer of a router to a packet of a factory.
use traceroute.Base.{
  ℕ, ◌<◌, ◌+◌, ◌≡◌, ap, ◌∙◌, Bool, inl, inr, true, false, ==_refl, ==_iff, Bytes, ◌∷◌, ◌++◌, ok,
  arith,
}
use traceroute.Address.{address_eq, is_v4}
use traceroute.Header.{IcmpHeader, IsIcmpHeader, serialize_icmp, sizeof_icmp, sizeof_tcp}
use traceroute.Packet.{
  Packet, icmp, tcp, udp, Draw, PacketFactory, create_packet, get_destination_address, serialize,
}
use traceroute.Packet.Build.{FieldsFit, create_packet-IsProduct}
use traceroute.Response.{ResponseInfo, is_icmp_protocol, is_valid}
use traceroute.Response.Accept.Wrap.{IsIpHeader, Outer, wrap, IsOuter, IsReceived}
use traceroute.Response.Accept.Icmp.{IsTimeExceeded, is_valid_icmp_exceeded}
use traceroute.Response.Accept.Tcp.{exceeded_type, is_valid_tcp_quoted}
use traceroute.Response.Accept.Udp.{is_valid_udp}

-- A packet as it travels: between IPv6 hosts the kernel fills in the checksum.
abbrev pub with_checksum : Packet → ℕ → Packet
with_checksum (icmp p) c = icmp (record p { icmp_header = record p.icmp_header { checksum = c } })
with_checksum (tcp p) c = tcp (record p { tcp_header = record p.tcp_header { check = c } })
with_checksum (udp p) c = udp (record p { udp_header = record p.udp_header { check = c } })

-- A time-exceeded message behind the IP header `o`, if there is one; it quotes the packet with
-- the IP header that begins with `b`.
abbrev pub exceeded_message : Outer → IcmpHeader → ℕ → Bytes → Packet → ℕ → Bytes → Bytes
exceeded_message o h b others p c rest =
    wrap o (serialize_icmp h ++ (b ∷ (others ++ (serialize (with_checksum p c) ++ rest))))

exceeded-IsTimeExceeded : (v4 : Bool) (type : ℕ) → type ≡ exceeded_type v4 → IsTimeExceeded type
exceeded-IsTimeExceeded true type e = inl e
exceeded-IsTimeExceeded false type e = inr e

module _ (info : ResponseInfo) (o : Outer) (h : IcmpHeader) (b : ℕ) (others rest : Bytes) (c : ℕ)
    (c_fits : c < 65536) (v : IsIcmpHeader h)
    (exceeded : h.type ≡ exceeded_type (is_v4 info.client)) (quotes : IsIpHeader b others)
    (outer : IsOuter o h.type) (received : IsReceived o (sizeof_icmp + sizeof_tcp) info)
    (is_icmp : is_icmp_protocol info.protocol ≡ true) where
  accepted_lem :
      (p : Packet)
      → FieldsFit p
      → address_eq (get_destination_address p) info.client ≡ false
      → is_valid p info (exceeded_message o h b others p c rest) ≡ ok true
  unfolding serialize get_destination_address
  accepted_lem (icmp p) f away =
      is_valid_icmp_exceeded p info o h (record p.icmp_header { checksum = c }) b others rest v
        (exceeded-IsTimeExceeded (is_v4 info.client) h.type exceeded) quotes (omega arith) outer
        (omega arith) is_icmp
      ∙ ap ok (==_refl p.icmp_header.id)
  accepted_lem (tcp p) f away =
      is_valid_tcp_quoted p info o h (record p.tcp_header { check = c }) b others rest v quotes
        (omega arith) outer received is_icmp
      ∙ rw
          ((==_iff h.type (exceeded_type (is_v4 info.client))).1 exceeded, ==_refl p.tcp_header.seq)
  accepted_lem (udp p) f away =
      is_valid_udp p info o h _ v outer (omega arith) is_icmp
      ∙ rw (away, (==_iff h.type (exceeded_type (is_v4 info.client))).1 exceeded)

  -- A router's answer to any packet of a factory is accepted by that packet. The answer is a
  -- time-exceeded message of the type of the router's protocol version, in a message of ICMP that
  -- is long enough; it quotes the IP header that the packet travelled with, of whatever length,
  -- and the bytes of the packet, with whatever checksum; the router is not the destination. That
  -- holds if the uninitialised field of the packet has 16 bits, and behind an IP header or
  -- without one, as long as a message without one does not look like one that has one.
  pub is_valid_own :
      (f : PacketFactory) (draw : Draw) (p : Packet)
      → draw.garbage < 65536
      → create_packet f draw ≡ ok p
      → address_eq (get_destination_address p) info.client ≡ false
      → is_valid p info (exceeded_message o h b others p c rest) ≡ ok true
  is_valid_own f draw p g e away = accepted_lem p (create_packet-IsProduct f draw p g e).fits away
