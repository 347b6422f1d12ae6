-- ===== src/Response/Safety.antt =====
-- The reads of the validators stay inside the receive buffer.
use traceroute.Base.{
  ℕ, ◌+◌, ◌*◌, ◌≤◌, ◌==◌, Bytes, drop, length, length-drop, Ensures, IsDefined, Ensures-bind,
  invalid_ip_header, Ensures-if, returns, throws, Ensures-load8, Ensures-load16, Ensures-load32,
  arith,
}
use traceroute.Address.{SocketAddress}
use traceroute.Checksum.{ipproto_tcp}
use traceroute.Header.{sizeof_ipv6, icmp_type, icmp_id, tcp_seq, tcp_ack_seq, IcmpHeader, TcpHeader}
use traceroute.Packet.{Packet, IcmpPacket, TcpPacket, UdpPacket, icmp, tcp, udp}
use traceroute.Response.{
  version, ihl, is_icmp_protocol, ResponseInfo, header_size, get_ip_header_size,
  is_ip_header_present, skip_ip_header, validate_same_sequence, validate_session, get_icmp_type,
  advance_to_quoted, Validator, validate_all, validator_is_valid, validate_echo_reply,
  validate_icmp_time_exceeded, icmp_fields, icmp_validator, validate_tcp_time_exceeded,
  validate_dest_unreach, icmp_to_tcp_fields, icmp_to_tcp_validator, tcp_to_tcp_fields,
  tcp_to_tcp_validator, udp_fields, udp_validator, tcp_is_valid, is_valid,
}

-- An IP header takes 60 bytes at most.
abbrev IsHeaderSize : ℕ → Type 0
IsHeaderSize n = n ≤ 60

abbrev HasBytes : ℕ → Bytes → Type 0
HasBytes n p = n ≤ length p

header_size-Ensures : (b : ℕ) → Ensures IsHeaderSize (header_size b)
unfolding header_size
header_size-Ensures b =
    Ensures-if (version b == 4) (returns (ihl b * 4) (omega arith))
      (Ensures-if (version b == 6) (returns sizeof_ipv6 (omega arith)) (throws invalid_ip_header))

get_ip_header_size-Ensures :
    (p : Bytes) → HasBytes 1 p → Ensures IsHeaderSize (get_ip_header_size p)
unfolding get_ip_header_size
get_ip_header_size-Ensures p h = Ensures-bind (Ensures-load8 p 0 h) (λ b _. header_size-Ensures b)

advance_to_quoted-Ensures :
    (k : ℕ) (p : Bytes) → HasBytes (69 + k) p → Ensures (HasBytes k) (advance_to_quoted p)
unfolding advance_to_quoted
advance_to_quoted-Ensures k p h =
    Ensures-bind (get_ip_header_size-Ensures (drop 8 p) (omega (arith, length-drop 8 p)))
      (λ n b. returns _ (omega (arith, length-drop 8 p, length-drop n (drop 8 p))))

validate_session-IsDefined :
    (p : Bytes) (h : IcmpHeader) → HasBytes 8 p → IsDefined (validate_session p h)
unfolding validate_session icmp_id
validate_session-IsDefined p h b =
    Ensures-bind (Ensures-load16 p 4 (omega arith)) (λ a _. returns _ tt)

validate_same_sequence-IsDefined :
    (p : Bytes) (h : TcpHeader) → HasBytes 8 p → IsDefined (validate_same_sequence p h)
unfolding validate_same_sequence tcp_seq
validate_same_sequence-IsDefined p h b =
    Ensures-bind (Ensures-load32 p 4 (omega arith)) (λ a _. returns _ tt)

validate_echo_reply-IsDefined :
    (p : Bytes) (packet : IcmpPacket) (client : SocketAddress)
    → HasBytes 8 p
    → IsDefined (validate_echo_reply p packet client)
unfolding validate_echo_reply
validate_echo_reply-IsDefined p packet client b =
    Ensures-if _ (validate_session-IsDefined p packet.icmp_header b) (returns _ tt)

validate_icmp_time_exceeded-IsDefined :
    (p : Bytes) (packet : IcmpPacket)
    → HasBytes 77 p
    → IsDefined (validate_icmp_time_exceeded p packet)
unfolding validate_icmp_time_exceeded
validate_icmp_time_exceeded-IsDefined p packet b =
    Ensures-bind (advance_to_quoted-Ensures 8 p b)
      (λ q h. validate_session-IsDefined q packet.icmp_header h)

validate_tcp_time_exceeded-IsDefined :
    (p : Bytes) (packet : TcpPacket)
    → HasBytes 77 p
    → IsDefined (validate_tcp_time_exceeded p packet)
unfolding validate_tcp_time_exceeded
validate_tcp_time_exceeded-IsDefined p packet b =
    Ensures-bind (advance_to_quoted-Ensures 8 p b)
      (λ q h. validate_same_sequence-IsDefined q packet.tcp_header h)

validate_dest_unreach-IsDefined :
    (p : Bytes) (packet : TcpPacket) (client : SocketAddress)
    → HasBytes 77 p
    → IsDefined (validate_dest_unreach p packet client)
unfolding validate_dest_unreach
validate_dest_unreach-IsDefined p packet client b =
    Ensures-if _ (validate_tcp_time_exceeded-IsDefined p packet b) (returns _ tt)

-- A validator whose fields are read within 77 bytes.
abbrev ReadsLittle : Validator → Type 0
ReadsLittle v =
    (info : ResponseInfo) (p : Bytes) → HasBytes 77 p → IsDefined (v.validate_fields info p)

get_icmp_type-IsDefined : (p : Bytes) → HasBytes 77 p → IsDefined (get_icmp_type p)
unfolding get_icmp_type icmp_type
get_icmp_type-IsDefined p b = Ensures-load8 p 0 (omega arith)

icmp-ReadsLittle : (packet : IcmpPacket) → ReadsLittle (icmp_validator (record { packet = packet }))
unfolding icmp_fields
icmp-ReadsLittle packet info p b = Ensures-bind (get_icmp_type-IsDefined p b) λ type _.
    Ensures-if _ (validate_echo_reply-IsDefined p packet info.client (omega arith))
      (Ensures-if _ (validate_icmp_time_exceeded-IsDefined p packet b) (returns _ tt))

icmp_to_tcp-ReadsLittle :
    (packet : TcpPacket) → ReadsLittle (icmp_to_tcp_validator (record { packet = packet }))
unfolding icmp_to_tcp_fields
icmp_to_tcp-ReadsLittle packet info p b = Ensures-bind (get_icmp_type-IsDefined p b) λ type _.
    Ensures-if _ (Ensures-if _ unreachable (Ensures-if _ exceeded (returns _ tt)))
      (Ensures-if _ unreachable (Ensures-if _ exceeded (returns _ tt)))
  where
    unreachable : IsDefined (validate_dest_unreach p packet info.client)
    unreachable = validate_dest_unreach-IsDefined p packet info.client b

    exceeded : IsDefined (validate_tcp_time_exceeded p packet)
    exceeded = validate_tcp_time_exceeded-IsDefined p packet b

tcp_to_tcp-ReadsLittle :
    (packet : TcpPacket) → ReadsLittle (tcp_to_tcp_validator (record { packet = packet }))
unfolding tcp_to_tcp_fields tcp_ack_seq
tcp_to_tcp-ReadsLittle packet info p b =
    Ensures-if _ (Ensures-bind (Ensures-load32 p 8 (omega arith)) (λ a _. returns _ tt))
      (returns _ tt)

udp-ReadsLittle : (packet : UdpPacket) → ReadsLittle (udp_validator (record { packet = packet }))
unfolding udp_fields icmp_type
udp-ReadsLittle packet info p b =
    Ensures-bind (Ensures-load8 p 0 (omega arith)) (λ a _. returns _ tt)

validate_all-IsDefined :
    (v : Validator) (info : ResponseInfo) (p : Bytes)
    → ReadsLittle v
    → HasBytes 77 p
    → IsDefined (validate_all v info p)
unfolding validate_all
validate_all-IsDefined v info p r b =
    Ensures-if _ (Ensures-if _ (r info p b) (returns _ tt)) (returns _ tt)

skip_ip_header-Ensures :
    (info : ResponseInfo) (p : Bytes)
    → HasBytes 137 p
    → Ensures (λ (r : ResponseInfo × Bytes). HasBytes 77 r.1) (skip_ip_header info p)
unfolding skip_ip_header
skip_ip_header-Ensures info p b =
    Ensures-bind (get_ip_header_size-Ensures p (omega arith))
      (λ n h. returns _ (omega (arith, length-drop n p)))

is_ip_header_present-IsDefined :
    (info : ResponseInfo) (p : Bytes) → HasBytes 137 p → IsDefined (is_ip_header_present info p)
unfolding is_ip_header_present
is_ip_header_present-IsDefined info p b =
    Ensures-if _ (throws _) (Ensures-bind (Ensures-load8 p 0 (omega arith)) (λ a _. returns _ tt))

validator_is_valid-IsDefined :
    (v : Validator) (info : ResponseInfo) (p : Bytes)
    → ReadsLittle v
    → HasBytes 137 p
    → IsDefined (validator_is_valid v info p)
unfolding validator_is_valid
validator_is_valid-IsDefined v info p r b =
    Ensures-bind (is_ip_header_present-IsDefined info p b) λ present _.
      Ensures-if _
        (Ensures-bind (skip_ip_header-Ensures info p b)
          (λ r' h. validate_all-IsDefined v r'.0 r'.1 r h))
        (validate_all-IsDefined v info p r (omega arith))

-- For a buffer of at least 137 bytes `isValid` of each class of packets stays inside the buffer
-- on every content, message size and protocol: it returns a Boolean or throws. The receive buffer
-- of the tracer has 4096 bytes.
pub is_valid-IsDefined :
    (packet : Packet) (info : ResponseInfo) (response : Bytes)
    → 137 ≤ length response
    → IsDefined (is_valid packet info response)
unfolding is_valid tcp_is_valid
is_valid-IsDefined (icmp packet) info response b =
    validator_is_valid-IsDefined _ info response (icmp-ReadsLittle packet) b
is_valid-IsDefined (tcp packet) info response b =
    Ensures-if (is_icmp_protocol info.protocol)
      (validator_is_valid-IsDefined (icmp_to_tcp_validator (record { packet = packet })) info
        response (icmp_to_tcp-ReadsLittle packet) b)
      (Ensures-if (info.protocol == ipproto_tcp)
        (validator_is_valid-IsDefined (tcp_to_tcp_validator (record { packet = packet })) info
          response (tcp_to_tcp-ReadsLittle packet) b)
        (returns _ tt))
is_valid-IsDefined (udp packet) info response b =
    validator_is_valid-IsDefined _ info response (udp-ReadsLittle packet) b
