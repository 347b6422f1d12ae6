-- ===== src/Response/Accept/Icmp.antt =====
-- The answers that an ICMP echo request accepts.
use traceroute.Base.{
  ℕ, ◌≡◌, ◌≢◌, ◌∙◌, true, ◌&&◌, ◌==◌, Bytes, ◌∷◌, ◌++◌, ok, throw, ◌⊎◌, arith, invalid_ip_header,
  load8,
}
use traceroute.Address.{address_eq}
use traceroute.Header.{IcmpHeader, IsIcmpHeader, serialize_icmp, sizeof_icmp}
use traceroute.Header.Layout.{read_icmp}
use traceroute.Packet.{IcmpPacket, icmp}
use traceroute.Response.{
  ResponseInfo, version, is_icmp_protocol, icmp_fields, icmp_validator, validate_echo_reply,
  validate_session, validate_icmp_time_exceeded, get_icmp_type, is_valid, icmp_echoreply,
  icmp6_echo_reply, icmp_time_exceeded, icmp6_time_exceeded, advance_to_quoted, get_ip_header_size,
  header_size,
}
use traceroute.Response.Accept.Wrap.{
  IsIpHeader, Outer, wrap, IsOuter, IsReceived, validator_is_valid_fields, inner, fits_in,
  advance_to_quoted_lem,
}

abbrev pub IsEchoReply : ℕ → Type 0
IsEchoReply type = (type ≡ icmp_echoreply) ⊎ (type ≡ icmp6_echo_reply)

abbrev pub IsTimeExceeded : ℕ → Type 0
IsTimeExceeded type = (type ≡ icmp_time_exceeded) ⊎ (type ≡ icmp6_time_exceeded)

session :
    (h echo : IcmpHeader) (rest : Bytes)
    → IsIcmpHeader h
    → validate_session (serialize_icmp h ++ rest) echo ≡ ok (h.id == echo.id)
unfolding validate_session
session h echo rest v = rw (read_icmp h rest v).1

-- A message that is long enough comes down to the check of its fields.
icmp_by_fields :
    (packet : IcmpPacket) (info : ResponseInfo) (o : Outer) (h : IcmpHeader) (rest : Bytes)
    → IsOuter o h.type
    → IsReceived o sizeof_icmp info
    → is_icmp_protocol info.protocol ≡ true
    → is_valid (icmp packet) info (wrap o (serialize_icmp h ++ rest))
      ≡ icmp_fields packet (inner o info) (serialize_icmp h ++ rest)
unfolding is_valid serialize_icmp
icmp_by_fields packet info o h rest w r p =
    validator_is_valid_fields (icmp_validator (record { packet = packet })) o info h.type
      sizeof_icmp _ w r p (fits_in sizeof_icmp o info r)

echo_fields :
    (packet : IcmpPacket) (info : ResponseInfo) (h : IcmpHeader) (rest : Bytes)
    → IsIcmpHeader h
    → IsEchoReply h.type
    → icmp_fields packet info (serialize_icmp h ++ rest)
      ≡ ok (address_eq info.client packet.destination_address && h.id == packet.icmp_header.id)
unfolding icmp_fields get_icmp_type validate_echo_reply
echo_fields packet info h rest v t =
    rw ((read_icmp h rest v).0, session h packet.icmp_header rest v) (ground arith)

-- An echo reply is accepted exactly when the host that sent it is the destination of the packet
-- and the reply carries the packet's id. So replies to other packets, and from other hosts, are
-- refused.
pub is_valid_echo_reply :
    (packet : IcmpPacket) (info : ResponseInfo) (o : Outer) (h : IcmpHeader) (rest : Bytes)
    → IsIcmpHeader h
    → IsEchoReply h.type
    → IsOuter o h.type
    → IsReceived o sizeof_icmp info
    → is_icmp_protocol info.protocol ≡ true
    → is_valid (icmp packet) info (wrap o (serialize_icmp h ++ rest))
      ≡ ok (address_eq info.client packet.destination_address && h.id == packet.icmp_header.id)
is_valid_echo_reply packet info o h rest v t w r p =
    icmp_by_fields packet info o h rest w r p ∙ echo_fields packet _ h rest v t

exceeded_fields :
    (packet : IcmpPacket) (info : ResponseInfo) (h quoted : IcmpHeader) (b : ℕ)
    (others rest : Bytes)
    → IsIcmpHeader h
    → IsTimeExceeded h.type
    → IsIpHeader b others
    → IsIcmpHeader quoted
    → icmp_fields packet info
        (serialize_icmp h ++ (b ∷ (others ++ (serialize_icmp quoted ++ rest))))
      ≡ ok (quoted.id == packet.icmp_header.id)
unfolding icmp_fields get_icmp_type validate_icmp_time_exceeded
exceeded_fields packet info h quoted b others rest v t i q =
    rw
      (
        (read_icmp h (b ∷ (others ++ (serialize_icmp quoted ++ rest))) v).0,
        advance_to_quoted_lem h b others (serialize_icmp quoted ++ rest) i,
        session quoted packet.icmp_header rest q,
      )
      (ground arith)

-- A time-exceeded message is accepted, from any host, exactly when the echo request that it
-- quotes carries the packet's id, whatever the length of the quoted IP header.
pub is_valid_icmp_exceeded :
    (packet : IcmpPacket) (info : ResponseInfo) (o : Outer) (h quoted : IcmpHeader) (b : ℕ)
    (others rest : Bytes)
    → IsIcmpHeader h
    → IsTimeExceeded h.type
    → IsIpHeader b others
    → IsIcmpHeader quoted
    → IsOuter o h.type
    → IsReceived o sizeof_icmp info
    → is_icmp_protocol info.protocol ≡ true
    → is_valid
        (icmp packet)
        info
        (wrap o (serialize_icmp h ++ (b ∷ (others ++ (serialize_icmp quoted ++ rest)))))
      ≡ ok (quoted.id == packet.icmp_header.id)
is_valid_icmp_exceeded packet info o h quoted b others rest v t i q w r p =
    icmp_by_fields packet info o h _ w r p ∙ exceeded_fields packet _ h quoted b others rest v t i q

quoted_garbage :
    (h : IcmpHeader) (b : ℕ) (rest : Bytes)
    → version b ≢ 4
    → version b ≢ 6
    → advance_to_quoted (serialize_icmp h ++ (b ∷ rest)) ≡ throw invalid_ip_header
unfolding advance_to_quoted serialize_icmp get_ip_header_size load8 header_size
quoted_garbage h b rest m n = ground arith

garbage_fields :
    (packet : IcmpPacket) (info : ResponseInfo) (h : IcmpHeader) (b : ℕ) (rest : Bytes)
    → IsIcmpHeader h
    → IsTimeExceeded h.type
    → version b ≢ 4
    → version b ≢ 6
    → icmp_fields packet info (serialize_icmp h ++ (b ∷ rest)) ≡ throw invalid_ip_header
unfolding icmp_fields get_icmp_type validate_icmp_time_exceeded
garbage_fields packet info h b rest v t m n =
    rw ((read_icmp h (b ∷ rest) v).0, quoted_garbage h b rest m n) (ground arith)

-- A time-exceeded message of an ICMP protocol, of at least eight bytes behind its IP header, if
-- it has one, and with no IP header behind these eight bytes, makes the validator of an ICMP
-- packet throw, whatever the packet and the sender: it is not refused as an invalid answer.
pub is_valid_icmp_garbage :
    (packet : IcmpPacket) (info : ResponseInfo) (o : Outer) (h : IcmpHeader) (b : ℕ) (rest : Bytes)
    → IsIcmpHeader h
    → IsTimeExceeded h.type
    → version b ≢ 4
    → version b ≢ 6
    → IsOuter o h.type
    → IsReceived o sizeof_icmp info
    → is_icmp_protocol info.protocol ≡ true
    → is_valid (icmp packet) info (wrap o (serialize_icmp h ++ (b ∷ rest)))
      ≡ throw invalid_ip_header
is_valid_icmp_garbage packet info o h b rest v t m n w r p =
    icmp_by_fields packet info o h _ w r p ∙ garbage_fields packet _ h b rest v t m n
