-- ===== src/Examples/Leftovers.antt =====
-- Two calls on an object of the fast tracer. The first gives its receiver no time, so the packet
-- that its sender sends then still waits when the second begins.
use traceroute.Base.{arith, ◌⊎◌, inr, ℕ, ◌≡◌, refl, true, false, List, [], ◌∷◌, ok, some, load8}
use traceroute.Response.{
  is_valid, validator_is_valid, is_ip_header_present, validate_all, udp_fields, get_icmp_type,
  skip_ip_header,
}
use traceroute.Address.{address_eq, family, is_v4, same_words}
use traceroute.Header.{icmp_type}
use traceroute.Packet.{udp, get_destination_address}
use traceroute.Probe.{success_probe, TracerouteResult}
use traceroute.Tracer.{get_time_left, get_time_passed_till_now}
use traceroute.Fast.{
  PacketToValidate, get_current_size, expected_size, expected_max_time_taken, accept_response,
  find_valid, current_size_from, expire_loop, push_result, record_success, keeps_waiting,
  locked_section, finish, cut_after, any_from, is_from, sort_by_ttl, transform, insert_by_ttl,
}
use traceroute.Fast.System.{
  Request, choosing, ended, left, System, receive_step, send_packets_step, choose, catch_failure,
  create, send, push_packet, set_stage, start, set_receiver, set_world, Reach, begins,
}
use traceroute.Fast.Stray.{HasHop, IsReached, Reach-HasHop}
use traceroute.Fast.Hasty.{IsDeaf, finish-empty}
use traceroute.Report.Life.{Joins, joined, goes_on, Life, made, called, IsTale, Life-IsTale}
use traceroute.Examples.Hosts.{zeros, server, datagram_packet}
use traceroute.Examples.Traces.{network, network-IsEnv}
use traceroute.Examples.Threads.{run-Reach, request, request-IsRequest}

abbrev leftover : PacketToValidate
leftover = record { packet = udp datagram_packet; sent_at = 0; ttl = 9; retry = 0 }

abbrev no_time : Request
no_time = record { ttl_begin = 9; ttl_end = 9; retries = 1; timeout = 0 }

-- The receiver has left its loop before the sender makes a packet.
abbrev left_early : System ℕ
left_early = record {
  sender = record { ttl = 9; i = 0; stage = choosing };
  receiver = left;
  buffer = zeros 4096;
  locked = record { packets = []; results = []; world = 0 };
}

left_early-Reach : Reach network no_time [] left_early
unfolding start receive_step keeps_waiting set_receiver set_world get_current_size expected_size
    expected_max_time_taken current_size_from get_time_left get_time_passed_till_now
left_early-Reach =
    run-Reach network no_time [] (false ∷ false ∷ []) (start network no_time [] (zeros 4096) 0)
      left_early (begins (zeros 4096) 0 refl) refl

abbrev joined_state : System ℕ
joined_state = record {
  sender = record { ttl = 10; i = 0; stage = ended };
  receiver = left;
  buffer = zeros 4096;
  locked = record { packets = leftover ∷ []; results = []; world = 0 };
}

left_early-finish : finish network left_early.locked.results left_early.locked.world ≡ ok []
unfolding finish transform sort_by_ttl cut_after
left_early-finish = refl

finish-empty_example : IsDeaf left_early.receiver × (◌≡◌ {A = List TracerouteResult} [] [])
finish-empty_example =
    finish-empty network network-IsEnv no_time (omega arith) [] left_early [] left_early-Reach
      left_early-finish

left_early-Joins : Joins network no_time joined_state left_early
unfolding send_packets_step choose catch_failure create send push_packet set_stage
left_early-Joins =
    goes_on refl (goes_on refl (goes_on refl (goes_on refl (goes_on refl (joined tt)))))

leftover-Life : Life network (leftover ∷ [])
unfolding set_receiver set_world
leftover-Life =
    called [] no_time left_early joined_state (udp datagram_packet) 0 made left_early-Reach refl
      refl left_early-Joins

-- The answer to the packet of hop 9, which an earlier call sent.
abbrev stray : List TracerouteResult
stray =
    record {
      ttl = 9;
      probe_results =
          record { success = true; waited_for = 11000; response_sender = some server } ∷ [];
    }
    ∷ []

-- The second call asks for hop 1 alone. Its receiver takes the answer for the one result that it
-- expects.
abbrev second_state : System ℕ
second_state = record {
  sender = record { ttl = 1; i = 0; stage = choosing };
  receiver = left;
  buffer = 3 ∷ zeros 4095;
  locked = record {
    packets = [];
    results =
        (9, record { success = true; waited_for = 11000; response_sender = some server } ∷ []) ∷ [];
    world = 11000000;
  };
}

second_state-Reach : Reach network request (leftover ∷ []) second_state
unfolding start receive_step keeps_waiting locked_section is_valid get_time_left set_receiver
    get_current_size set_world expected_size expected_max_time_taken accept_response find_valid
    validator_is_valid is_ip_header_present load8 validate_all udp_fields address_eq family is_v4
    same_words current_size_from expire_loop push_result record_success get_icmp_type skip_ip_header
    icmp_type success_probe get_time_passed_till_now
second_state-Reach =
    run-Reach network request (leftover ∷ []) (false ∷ false ∷ false ∷ false ∷ false ∷ [])
      (start network request (leftover ∷ []) (zeros 4096) 10000000) second_state
      (begins (zeros 4096) 10000000 refl) refl

-- It returns hop 9.
second_state-finish :
    finish network second_state.locked.results second_state.locked.world ≡ ok stray
unfolding finish cut_after any_from is_from sort_by_ttl transform insert_by_ttl
    get_destination_address address_eq family is_v4 same_words
second_state-finish = refl

Reach-HasHop_example : HasHop 9 1 stray ⊎ IsReached server stray
Reach-HasHop_example =
    Reach-HasHop network network-IsEnv request (leftover ∷ []) 9 second_state stray
      request-IsRequest (inr (omega arith)) (omega arith) second_state-Reach refl
      second_state-finish

Life-IsTale_example : IsTale network server 5000 stray
Life-IsTale_example =
    Life-IsTale network network-IsEnv request (leftover ∷ []) second_state stray request-IsRequest
      leftover-Life second_state-Reach second_state-finish
