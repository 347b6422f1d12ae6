-- ===== src/Examples/Checksums.antt =====
-- Checksums computed.
use traceroute.Base.{◌+◌, ◌-◌, ◌%◌, ◌*◌, ◌≡◌, refl, true, false, [], ◌∷◌, arith, htons}
use traceroute.Address.{is_v4}
use traceroute.Header.{serialize_icmp, serialize_tcp, serialize_udp, sizeof_tcp, sizeof_udp}
use traceroute.Checksum.{
  fold, add_words, compute_checksum, icmp_header_checksum, tcp_header_checksum, udp_header_checksum,
  pseudoheader_checksum, add_in6, ipproto_tcp, ipproto_udp,
}
use traceroute.Checksum.Fold.{residue, word_sum, compute_checksum_lem}
use traceroute.Checksum.Verify.{
  Verifies, pseudo_header_v4, icmp_header_checksum-Verifies, tcp_header_checksum-Verifies,
  udp_header_checksum-Verifies, pseudoheader_checksum_v6,
}
use traceroute.Examples.Hosts.{home, server, server6, echo, syn, datagram}

fold_run : fold 0x1fffe ≡ 0xffff
unfolding fold
fold_run = refl

icmp_run : icmp_header_checksum echo ≡ 0xcbe5
unfolding icmp_header_checksum compute_checksum add_words fold serialize_icmp
icmp_run = refl

compute_checksum_lem_example :
    compute_checksum (1 ∷ 2 ∷ 3 ∷ []) 7 % 65536 ≡ 65535 - residue (7 + word_sum (1 ∷ 2 ∷ 3 ∷ []))
compute_checksum_lem_example = compute_checksum_lem (1 ∷ 2 ∷ 3 ∷ []) 7 (omega arith) (omega arith)

icmp_header_checksum-Verifies_example :
    Verifies (serialize_icmp (record echo { checksum = icmp_header_checksum echo }))
icmp_header_checksum-Verifies_example = icmp_header_checksum-Verifies echo (omega arith)

home_v4 : is_v4 home ≡ true
unfolding is_v4
home_v4 = refl

server6_v6 : is_v4 server6 ≡ false
unfolding is_v4
server6_v6 = refl

tcp_header_checksum-Verifies_example : Verifies (
    pseudo_header_v4 home server ipproto_tcp sizeof_tcp
      (serialize_tcp (record syn { check = tcp_header_checksum syn home server })))
tcp_header_checksum-Verifies_example =
    tcp_header_checksum-Verifies syn home server (omega arith) home_v4 (omega arith) (omega arith)

udp_header_checksum-Verifies_example : Verifies (
    pseudo_header_v4 home server ipproto_udp sizeof_udp
      (serialize_udp (record datagram { check = udp_header_checksum datagram home server })))
udp_header_checksum-Verifies_example =
    udp_header_checksum-Verifies datagram home server (omega arith) home_v4 (omega arith)
      (omega arith)

pseudoheader_checksum_v6_example :
    pseudoheader_checksum ipproto_tcp 20 server6 home
    ≡ 2 * add_in6 server6.sin6_addr 0 + htons ipproto_tcp + htons 20
pseudoheader_checksum_v6_example = pseudoheader_checksum_v6 ipproto_tcp 20 server6 home server6_v6
