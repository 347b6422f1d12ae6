-- ===== src/Examples/Failures.antt =====
-- The fast tracer on a network that takes no packet, and the sequential one asked for every hop.
use traceroute.Base.{
  ℕ, ◌+◌, ◌<◌, List, ◌≡◌, refl, true, false, ltb, [], ◌∷◌, some, ok, load8, arith,
}
use traceroute.Packet.{udp, get_destination_address}
use traceroute.Response.{
  is_valid, validator_is_valid, is_ip_header_present, validate_all, udp_fields, get_icmp_type,
  skip_ip_header,
}
use traceroute.Address.{address_eq, family, is_v4, same_words}
use traceroute.Header.{icmp_type}
use traceroute.Probe.{TracerouteResult, success_probe}
use traceroute.Tracer.{Env, get_time_left, get_time_passed_till_now}
use traceroute.Fast.{get_current_size, keeps_waiting, expected_size, expected_max_time_taken}
use traceroute.Fast.System.{
  send_packets_step, start, choose, catch_failure, create, send, set_stage, Reach, begins, failed,
  starting, System,
}
use traceroute.Fast.Failure.{failed-keeps_waiting}
use traceroute.Sequential.{
  Progress, begin_probing, ttl_loop, retry_loop, probe, receive_loop, judge, conclude, client_of,
}
use traceroute.Sequential.Endless.{unsigned_max, EndsReached}
use traceroute.Sequential.History.{History-EndsReached}
use traceroute.Examples.Hosts.{zeros, server, datagram_packet, from_server}
use traceroute.Examples.Traces.{answer, answered, used, used-History, network, network-IsEnv}
use traceroute.Examples.Threads.{run-Reach, request, request-IsRequest}

abbrev closed_network : Env
closed_network = record {
  World = ℕ;
  create_packet = λ w. ok (udp datagram_packet, w);
  try_sending = λ p ttl t w. ok (false, w);
  try_receiving = λ b t w. ok (some (from_server 1 56), answer b, w + 1000000);
  now = λ w. (w, w);
}

abbrev failed_state : System ℕ
failed_state = record {
  sender = record { ttl = 1; i = 0; stage = failed };
  receiver = starting;
  buffer = zeros 4096;
  locked = record { packets = []; results = []; world = 0 };
}

failed_state-Reach : Reach closed_network request [] failed_state
unfolding start send_packets_step choose catch_failure create send set_stage
failed_state-Reach =
    run-Reach closed_network request [] (true ∷ true ∷ [])
      (start closed_network request [] (zeros 4096) 0) failed_state (begins (zeros 4096) 0 refl)
      refl

failed-keeps_waiting_example :
    (get_current_size failed_state.locked.results < expected_size 1 1 1)
    × ((keeps_waiting closed_network 0 (expected_size 1 1 1) 5000 failed_state.locked.results 7).0
        ≡ ltb 0
            (get_time_left closed_network 0
              (expected_max_time_taken 5000 (expected_size 1 1 1))
              7).0)
failed-keeps_waiting_example =
    failed-keeps_waiting closed_network request request-IsRequest failed_state 0 7 (omega arith)
      failed_state-Reach refl

-- The server answers at the first hop.
abbrev whole_range : Progress (List TracerouteResult) ℕ
whole_range = record {
  result = record { ttl = 1; probe_results = answered ∷ answered ∷ [] } ∷ [];
  destination_reached = true;
  buffer = used.buffer;
  world = 2000000;
}

whole_range-begin_probing :
    begin_probing network 1 6000000 1 unsigned_max 2 5000 used.buffer 0 ≡ ok whole_range
unfolding begin_probing ttl_loop retry_loop probe receive_loop judge conclude client_of
    get_time_left get_time_passed_till_now success_probe is_valid validator_is_valid
    is_ip_header_present load8 validate_all udp_fields get_icmp_type skip_ip_header icmp_type
    address_eq family is_v4 same_words get_destination_address
whole_range-begin_probing = refl

History-EndsReached_example : EndsReached server whole_range.result
History-EndsReached_example =
    History-EndsReached network network-IsEnv 1 6000000 1 2 5000 used 0 whole_range used-History
      (omega arith) (omega arith) whole_range-begin_probing
