-- ===== src/Header.antt =====
-- include/Traceroute/HeaderTypes.hpp and src/utils/Serialize.hpp: the headers and their bytes.
-- A field holds the value that a little-endian machine reads from it, so a field in network order
-- holds the swapped number.
pub mod Layout
use traceroute.Base.{
  ℕ, suc, ◌+◌, ◌*◌, ◌<◌, ◌^◌, List, [], ◌∷◌, ◌++◌, Bytes, Outcome, ok, ◌>>=◌, store16, store32,
  load8, load16, load32,
}

pub record IcmpHeader : Type 0 where
  pub type : ℕ
  pub code : ℕ
  pub checksum : ℕ
  pub id : ℕ
  pub sequence : ℕ

pub record TcpHeader : Type 0 where
  pub source : ℕ
  pub dest : ℕ
  pub seq : ℕ
  pub ack_seq : ℕ
  pub th_x2 : ℕ
  pub th_off : ℕ
  pub th_flags : ℕ
  pub window : ℕ
  pub check : ℕ
  pub urg_ptr : ℕ

pub record UdpHeader : Type 0 where
  pub source : ℕ
  pub dest : ℕ
  pub len : ℕ
  pub check : ℕ

abbrev pub sizeof_icmp : ℕ
sizeof_icmp = 8

abbrev pub sizeof_tcp : ℕ
sizeof_tcp = 20

abbrev pub sizeof_udp : ℕ
sizeof_udp = 8

abbrev pub sizeof_ipv6 : ℕ
sizeof_ipv6 = 40

-- `utils::serialize` at each header: the bytes of the object. The first bit-field of a byte takes
-- its low bits.
unfoldable pub serialize_icmp : IcmpHeader → Bytes
unfolding store16
serialize_icmp h = h.type ∷ h.code ∷ store16 h.checksum (store16 h.id (store16 h.sequence []))

unfoldable pub serialize_tcp : TcpHeader → Bytes
unfolding store16 store32
serialize_tcp h = store16 h.source (
    store16 h.dest (
      store32 h.seq (
        store32 h.ack_seq (
          (h.th_x2 + 16 * h.th_off)
          ∷ h.th_flags
          ∷ store16 h.window (store16 h.check (store16 h.urg_ptr []))))))

unfoldable pub serialize_udp : UdpHeader → Bytes
unfolding store16
serialize_udp h = store16 h.source (store16 h.dest (store16 h.len (store16 h.check [])))

-- `reinterpret_cast` to a header pointer, and the fields that the program reads through it.
unfoldable pub icmp_type : Bytes → Outcome ℕ
unfolding load8
icmp_type p = load8 p 0

unfoldable pub icmp_id : Bytes → Outcome ℕ
unfolding load16
icmp_id p = load16 p 4

unfoldable pub tcp_seq : Bytes → Outcome ℕ
unfolding load32
tcp_seq p = load32 p 4

unfoldable pub tcp_ack_seq : Bytes → Outcome ℕ
unfolding load32
tcp_ack_seq p = load32 p 8

-- The ranges of the fields.
pub record IsIcmpHeader (h : IcmpHeader) : Type 0 where
  pub type_fits : h.type < 256
  pub code_fits : h.code < 256
  pub checksum_fits : h.checksum < 65536
  pub id_fits : h.id < 65536
  pub sequence_fits : h.sequence < 65536

pub record IsTcpHeader (h : TcpHeader) : Type 0 where
  pub source_fits : h.source < 65536
  pub dest_fits : h.dest < 65536
  pub seq_fits : h.seq < 2 ^ 32
  pub ack_seq_fits : h.ack_seq < 2 ^ 32
  pub th_x2_fits : h.th_x2 < 16
  pub th_off_fits : h.th_off < 16
  pub th_flags_fits : h.th_flags < 256
  pub window_fits : h.window < 65536
  pub check_fits : h.check < 65536
  pub urg_ptr_fits : h.urg_ptr < 65536

pub record IsUdpHeader (h : UdpHeader) : Type 0 where
  pub source_fits : h.source < 65536
  pub dest_fits : h.dest < 65536
  pub len_fits : h.len < 65536
  pub check_fits : h.check < 65536
