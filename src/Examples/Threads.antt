-- ===== src/Examples/Threads.antt =====
-- The two threads of the fast tracer on the network of one host, under a schedule.
use traceroute.Base.{
  ℕ, ◌≤◌, ◌+◌, length, IsDefined, ◌≡◌, refl, Bool, true, false, List, [], ◌∷◌, Outcome, ok, some,
  first_call, ok-injective, load8, subst, ◌>>=◌, arith,
}
use traceroute.Response.{
  is_valid, validator_is_valid, is_ip_header_present, validate_all, udp_fields, get_icmp_type,
  skip_ip_header,
}
use traceroute.Address.{address_eq, family, is_v4, same_words}
use traceroute.Header.{icmp_type}
use traceroute.Probe.{success_probe, TracerouteResult}
use traceroute.Tracer.{Env, get_time_left, get_time_passed_till_now}
use traceroute.Fast.{
  PacketToValidate, get_current_size, expected_size, expected_max_time_taken, accept_response,
  find_valid, current_size_from, expire_loop, push_result, record_success, keeps_waiting,
  locked_section,
}
use traceroute.Fast.System.{
  Request, System, send_packets_step, receive_step, start, Reach, begins, steps, sends, receives,
  ended, left, choose, catch_failure, create, send, set_receiver, push_packet, set_world, set_stage,
}
use traceroute.Packet.{get_destination_address}
use traceroute.Fast.{finish, cut_after, any_from, is_from, sort_by_ttl, transform, insert_by_ttl}
use traceroute.Fast.Conserve.{results_at, results_in}
use traceroute.Fast.Invariant.{Reach-IsInvariant}
use traceroute.Fast.Position.{IsRequest, IsInvariant}
use traceroute.Fast.Complete.{complete_lem, get_current_size_bounds}
use traceroute.Fast.Progress.{awaited, limit, Reach-progress}
use traceroute.Examples.Hosts.{zeros, server}
use traceroute.Examples.Traces.{network, network-IsEnv}

-- A step of the sender for `true`, of the receiver for `false`.
abbrev pub run :
    (env : Env) (q : Request) → List Bool → System env.World → Outcome (System env.World)
run env q [] s = ok s
run env q (true ∷ schedule) s = send_packets_step env q s.sender.stage s >>= run env q schedule
run env q (false ∷ schedule) s = receive_step env q s.receiver s >>= run env q schedule

abbrev pub request : Request
request = record { ttl_begin = 1; ttl_end = 1; retries = 1; timeout = 5000 }

abbrev pub first_state : System ℕ
first_state = start network request [] (zeros 4096) 0

-- Both threads to their end; the packet is recorded while the receiver waits.
abbrev schedule : List Bool
schedule = true ∷ true ∷ false ∷ false ∷ true ∷ false ∷ false ∷ true ∷ true ∷ false ∷ []

pub run-Reach :
    (env : Env) (q : Request) (old : List PacketToValidate) (turns : List Bool)
    (s s' : System env.World)
    → Reach env q old s
    → run env q turns s ≡ ok s'
    → Reach env q old s'
run-Reach env q old [] s s' r e = subst (Reach env q old) (ok-injective _ _ e) r
run-Reach env q old (true ∷ turns) s s' r e =
    let (m, f, k) = first_call (send_packets_step env q s.sender.stage s) e in
    run-Reach env q old turns m s' (steps s m r (sends s m f)) k
run-Reach env q old (false ∷ turns) s s' r e =
    let (m, f, k) = first_call (receive_step env q s.receiver s) e in
    run-Reach env q old turns m s' (steps s m r (receives s m f)) k

-- The one hop, with the answer of the server after a millisecond.
abbrev pub last_state : System ℕ
last_state = record {
  sender = record { ttl = 2; i = 0; stage = ended };
  receiver = left;
  buffer = 3 ∷ zeros 4095;
  locked = record {
    packets = [];
    results =
        (1, record { success = true; waited_for = 1000; response_sender = some server } ∷ []) ∷ [];
    world = 1000000;
  };
}

pub last_state-Reach : Reach network request [] last_state
unfolding start send_packets_step receive_step keeps_waiting locked_section is_valid get_time_left
    choose catch_failure create send set_receiver push_packet get_current_size set_world
    expected_size expected_max_time_taken accept_response find_valid validator_is_valid
    is_ip_header_present load8 validate_all udp_fields address_eq family is_v4 same_words set_stage
    current_size_from expire_loop push_result record_success get_icmp_type skip_ip_header icmp_type
    success_probe get_time_passed_till_now
last_state-Reach =
    run-Reach network request [] schedule first_state last_state (begins (zeros 4096) 0 refl) refl

pub request-IsRequest : IsRequest request
request-IsRequest = record {
  ordered = omega arith;
  end_small = omega arith;
  retries_small = omega arith;
}

Reach-IsInvariant_example : IsInvariant request [] last_state
Reach-IsInvariant_example =
    Reach-IsInvariant network request request-IsRequest [] last_state last_state-Reach

abbrev pub answers : List TracerouteResult
answers =
    record {
      ttl = 1;
      probe_results =
          record { success = true; waited_for = 1000; response_sender = some server } ∷ [];
    }
    ∷ []

pub last_state-finish :
    finish network last_state.locked.results last_state.locked.world ≡ ok answers
unfolding finish cut_after any_from is_from sort_by_ttl transform insert_by_ttl
    get_destination_address address_eq family is_v4 same_words
last_state-finish = refl

last_state-full : expected_size 1 1 1 ≤ get_current_size last_state.locked.results
unfolding expected_size get_current_size current_size_from
last_state-full = omega arith

complete_lem_example :
    (last_state.locked.packets ≡ []) × (results_at 1 last_state.locked.results ≡ 1)
complete_lem_example =
    complete_lem network request request-IsRequest last_state 1 (omega arith) last_state-Reach
      last_state-full (omega arith) (omega arith)

Reach-progress_example :
    IsDefined (receive_step network request left last_state)
    × IsDefined (send_packets_step network request ended last_state)
    × (awaited network request [] last_state last_state-Reach ≤ limit request)
Reach-progress_example = Reach-progress network network-IsEnv request [] last_state last_state-Reach

get_current_size_bounds_example :
    (get_current_size last_state.locked.results ≡ results_in last_state.locked.results)
    × (length last_state.locked.packets + get_current_size last_state.locked.results
        ≤ expected_size 1 1 1)
get_current_size_bounds_example =
    get_current_size_bounds network request request-IsRequest last_state (omega arith)
      last_state-Reach
