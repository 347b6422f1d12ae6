-- ===== src/Response/Session.antt =====
-- Which packets an answer can belong to.
use traceroute.Base.{
  ◌≡◌, sym, ◌∙◌, ap, true, Bool-cases, inl, inr, ◌==◌, Bytes, ok, ok-injective, ntohl,
}
use traceroute.Packet.{Packet, icmp, tcp, udp, TcpPacket}
use traceroute.Response.{
  make_tcp_validator, ResponseInfo, is_icmp_protocol, ipproto_tcp, icmp_validator,
  icmp_to_tcp_validator, tcp_to_tcp_validator, tcp_is_valid, is_valid,
}
use traceroute.Response.Fields.{
  taken, both_fields, icmp_fields-id, icmp_to_tcp_fields-seq, tcp_to_tcp_fields-seq,
}

-- Packets of one session: the id of an echo request, the sequence number of a TCP segment. A UDP
-- packet has nothing that tells it from others.
abbrev pub SameSession : Packet → Packet → Type 0
SameSession (icmp p) (icmp q) = p.icmp_header.id ≡ q.icmp_header.id
SameSession (tcp p) (tcp q) = ntohl p.tcp_header.seq ≡ ntohl q.tcp_header.seq
SameSession _ _ = Unit

-- The branch of a TCP packet for the protocol of the response.
tcp_is_valid-SameSession :
    (p q : TcpPacket) (info : ResponseInfo) (response : Bytes)
    → tcp_is_valid (make_tcp_validator p) info response ≡ ok true
    → tcp_is_valid (make_tcp_validator q) info response ≡ ok true
    → ntohl p.tcp_header.seq ≡ ntohl q.tcp_header.seq
unfolding tcp_is_valid
tcp_is_valid-SameSession p q info response e e' =
    elim (Bool-cases (is_icmp_protocol info.protocol)) [
      | inl y ↦
          let (s, f, f') =
            both_fields (icmp_to_tcp_validator (record { packet = p }))
              (icmp_to_tcp_validator (record { packet = q })) info response (rw y at e)
              (rw y at e') in
          ap ntohl (
            ok-injective _ _
              (sym (icmp_to_tcp_fields-seq p s.0 s.1 f) ∙ icmp_to_tcp_fields-seq q s.0 s.1 f'))
      | inr n ↦
          let (s, f, f') =
            both_fields (tcp_to_tcp_validator (record { packet = p }))
              (tcp_to_tcp_validator (record { packet = q })) info response
              (taken (info.protocol == ipproto_tcp) _ (rw n at e))
              (taken (info.protocol == ipproto_tcp) _ (rw n at e')) in
          ok-injective _ _
            (sym (tcp_to_tcp_fields-seq p s.0 s.1 f) ∙ tcp_to_tcp_fields-seq q s.0 s.1 f')
    ]

-- If two ICMP packets accept the same message, they have the same id, and if two TCP packets do,
-- they have the same sequence number, whatever stands in the message and the rest of the buffer.
-- So an answer is never taken for that of a packet of another session. Of UDP packets nothing is
-- said.
pub is_valid-SameSession :
    (p q : Packet) (info : ResponseInfo) (response : Bytes)
    → is_valid p info response ≡ ok true
    → is_valid q info response ≡ ok true
    → SameSession p q
unfolding is_valid
is_valid-SameSession (icmp p) (icmp q) info response e e' =
    let (s, f, f') =
      both_fields (icmp_validator (record { packet = p })) (icmp_validator (record { packet = q }))
        info response e e' in
    ok-injective _ _ (sym (icmp_fields-id p s.0 s.1 f) ∙ icmp_fields-id q s.0 s.1 f')
is_valid-SameSession (tcp p) (tcp q) info response e e' =
    tcp_is_valid-SameSession p q info response e e'
is_valid-SameSession (icmp p) (tcp q) info response e e' = tt
is_valid-SameSession (icmp p) (udp q) info response e e' = tt
is_valid-SameSession (tcp p) (icmp q) info response e e' = tt
is_valid-SameSession (tcp p) (udp q) info response e e' = tt
is_valid-SameSession (udp p) q info response e e' = tt
