-- ===== src/Examples/FastScripts.antt =====
-- tests/UnitTests/TracerouteTests/FastTest.cpp: the expectation of the unit test, run on a
-- network that never answers.
use traceroute.Base.{refl, ◌≡◌, true, false, Bool, List, [], ◌∷◌, ok, none, ◌>>=◌}
use traceroute.Probe.{failed_probe, TracerouteResult}
use traceroute.Tracer.{get_time_left, get_time_passed_till_now}
use traceroute.Fast.{
  get_current_size, expected_size, expected_max_time_taken, accept_response, current_size_from,
  expire_loop, push_result, keeps_waiting, locked_section, finish, cut_after, any_from, is_from,
  sort_by_ttl, transform, insert_by_ttl,
}
use traceroute.Fast.System.{
  Request, send_packets_step, receive_step, start, choose, catch_failure, create, send,
  set_receiver, push_packet, set_world, set_stage,
}
use traceroute.Packet.{get_destination_address}
use traceroute.Examples.Hosts.{zeros}
use traceroute.Examples.Scripts.{scripted, begun}
use traceroute.Examples.Threads.{run}

abbrev one_packet : Request
one_packet = record { ttl_begin = 1; ttl_end = 1; retries = 1; timeout = 100000 }

-- The sender's three steps for the packet, then the receiver's until it leaves the loop.
abbrev turns : List Bool
turns = true ∷ true ∷ true ∷ false ∷ false ∷ false ∷ false ∷ false ∷ []

abbrev given_up : List TracerouteResult
given_up =
    record {
      ttl = 1;
      probe_results = record { success = false; waited_for = 100000; response_sender = none } ∷ [];
    }
    ∷ []

-- `onTimeout_waitedFor_isEqualTo_timeout`
timeout_run :
    (run scripted one_packet turns (start scripted one_packet [] (zeros 64) (begun []))
      >>= (λ s. finish scripted s.locked.results s.locked.world))
    ≡ ok given_up
unfolding start receive_step send_packets_step keeps_waiting locked_section get_time_left
    set_receiver choose catch_failure create send push_packet set_stage get_current_size set_world
    expected_size expected_max_time_taken accept_response current_size_from expire_loop push_result
    failed_probe get_time_passed_till_now finish cut_after any_from is_from sort_by_ttl transform
    insert_by_ttl get_destination_address
timeout_run = refl
