-- ===== src/Examples/Traces.antt =====
-- The sequential tracer on a network with one host, which answers every UDP packet at once.
use traceroute.Base.{
  load8, ℕ, ◌+◌, ◌≡◌, refl, true, Bytes, [], ◌∷◌, length, some, ok, Ensures, returns, arith,
}
use traceroute.Packet.{udp, get_destination_address}
use traceroute.Response.{
  is_valid, validator_is_valid, is_ip_header_present, validate_all, udp_fields, get_icmp_type,
  skip_ip_header,
}
use traceroute.Address.{address_eq, family, is_v4, same_words}
use traceroute.Header.{icmp_type}
use traceroute.Tracer.{
  Env, IsEnv, Traceroute, make_traceroute, get_time_left, get_time_passed_till_now,
}
use traceroute.Sequential.{
  begin_probing, ttl_loop, retry_loop, probe, receive_loop, judge, conclude, client_of,
}
use traceroute.Sequential.Spec.{IsTrace}
use traceroute.Sequential.History.{History, made, called, History-IsTrace}
use traceroute.Probe.{ProbeResult, success_probe}
use traceroute.Examples.Hosts.{server, datagram_packet, zeros, from_server}

-- A message is written to the front of the buffer: a destination-unreachable without an IP
-- header.
abbrev pub answer : Bytes → Bytes
answer [] = []
answer (b ∷ rest) = 3 ∷ rest

pub length-answer : (b : Bytes) → length (answer b) ≡ length b
length-answer [] = refl
length-answer (b ∷ rest) = refl

-- The world is the time; an answer takes a millisecond.
abbrev pub network : Env
network = record {
  World = ℕ;
  create_packet = λ w. ok (udp datagram_packet, w);
  try_sending = λ p ttl t w. ok (true, w);
  try_receiving = λ b t w. ok (some (from_server 1 56), answer b, w + 1000000);
  now = λ w. (w, w);
}

pub network-IsEnv : IsEnv network server
unfolding get_destination_address
network-IsEnv = record {
  time = λ w. w;
  now_reads = λ w. (omega arith, omega arith);
  create_defined = λ w. returns _ tt;
  create_lem = λ w w' p e. ground arith;
  sending_defined = λ p ttl t w. returns _ tt;
  sending_lem = λ p ttl t w w' sent e. ground arith;
  receiving_defined = λ b t w. returns _ tt;
  receiving_lem = λ b b' t w w' r e. ground (arith, length-answer b);
}

-- An object that was asked for hop 1 once.
abbrev pub used : Traceroute network
used = record { buffer = answer (zeros 4096) }

abbrev pub answered : ProbeResult
answered = record { success = true; waited_for = 1000; response_sender = some server }

first_call_run :
    begin_probing network 3 6000000 1 1 1 5000 (make_traceroute network).buffer 0
    ≡ ok (record {
      result = record { ttl = 1; probe_results = answered ∷ [] } ∷ [];
      destination_reached = true;
      buffer = answer (zeros 4096);
      world = 1000000;
    })
unfolding begin_probing ttl_loop retry_loop probe receive_loop judge conclude client_of
    get_time_left get_time_passed_till_now success_probe is_valid validator_is_valid
    is_ip_header_present load8 validate_all udp_fields get_icmp_type skip_ip_header icmp_type
    address_eq family is_v4 same_words get_destination_address make_traceroute
first_call_run = refl

pub used-History : History network used
used-History =
    called (make_traceroute network) used 3 6000000 1 1 1 5000 0 _ made first_call_run refl

History-IsTrace_example :
    Ensures
      (λ p. IsTrace network server 2 5000 3 1 p.result used.buffer 0 p.buffer p.world)
      (begin_probing network 4 6000000 1 3 2 5000 used.buffer 0)
History-IsTrace_example =
    History-IsTrace network network-IsEnv 4 6000000 1 3 2 5000 used 0 used-History (omega arith)
      (omega arith) (omega arith) (omega arith)
