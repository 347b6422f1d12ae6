-- ===== src/Examples/Passes.antt =====
-- The receiver of the fast tracer on the network of one host: a pass under the lock, and the
-- steps of a whole run.
use traceroute.Base.{ℕ, ◌≤◌, ◌≡◌, refl, true, false, [], ◌∷◌, ok, some, none, load8, Ensures, arith}
use traceroute.Packet.{udp}
use traceroute.Response.{
  is_valid, validator_is_valid, is_ip_header_present, validate_all, udp_fields, get_icmp_type,
  skip_ip_header,
}
use traceroute.Address.{address_eq, family, is_v4, same_words}
use traceroute.Header.{icmp_type}
use traceroute.Probe.{success_probe, failed_probe}
use traceroute.Tracer.{get_time_left, get_time_passed_till_now}
use traceroute.Fast.{
  accept_response, find_valid, expire_loop, push_result, record_success, Locked, locked_section,
}
use mathlib.Core.WellFounded.{Acc}
use traceroute.Fast.Pass.{IsPass, locked_section-IsPass}
use traceroute.Fast.Turns.{sender_turns, receiver_turns, sender_limit, receiver_limit}
use traceroute.Fast.Halting.{BusyStep, Reach-halts}
use traceroute.Examples.Hosts.{zeros, server, datagram_packet, from_server}
use traceroute.Examples.Traces.{network, network-IsEnv}
use traceroute.Examples.Threads.{request, request-IsRequest, last_state, last_state-Reach}

-- One packet is answered, the other has waited too long.
abbrev two_waiting : Locked ℕ
two_waiting = record {
  packets =
      record { packet = udp datagram_packet; sent_at = 9000000; ttl = 1; retry = 0 }
      ∷ record { packet = udp datagram_packet; sent_at = 0; ttl = 2; retry = 0 }
      ∷ [];
  results = [];
  world = 10000000;
}

abbrev none_waiting : Locked ℕ
none_waiting = record {
  packets = [];
  results =
      (1, record { success = true; waited_for = 1000; response_sender = some server } ∷ [])
      ∷ (2, record { success = false; waited_for = 10000; response_sender = none } ∷ [])
      ∷ [];
  world = 10000000;
}

two_waiting-locked_section :
    locked_section network 5000 (some (from_server 1 56)) (3 ∷ zeros 199) two_waiting
    ≡ ok none_waiting
unfolding locked_section accept_response find_valid is_valid validator_is_valid is_ip_header_present
    load8 validate_all udp_fields address_eq family is_v4 same_words expire_loop push_result
    record_success get_icmp_type skip_ip_header icmp_type success_probe failed_probe
    get_time_passed_till_now get_time_left
two_waiting-locked_section = refl

locked_section-IsPass_example :
    Ensures
      (λ s'. IsPass network 5000 (3 ∷ zeros 199) two_waiting s' (some (from_server 1 56)))
      (locked_section network 5000 (some (from_server 1 56)) (3 ∷ zeros 199) two_waiting)
locked_section-IsPass_example =
    locked_section-IsPass network 5000 (some (from_server 1 56)) (3 ∷ zeros 199) two_waiting
      (omega arith)

Reach-halts_example :
    (sender_turns network request [] last_state last_state-Reach ≤ sender_limit request)
    × (receiver_turns network request [] last_state last_state-Reach ≤ receiver_limit request)
    × Acc (BusyStep network request) last_state
Reach-halts_example =
    Reach-halts network network-IsEnv request request-IsRequest [] last_state last_state-Reach
