-- ===== src/Examples/Scripts.antt =====
-- tests/UnitTests/TracerouteTests/SequentialTest.cpp: the expectations of the unit tests, run on
-- a network that follows a script. An accepted message takes the place of a mocked packet.
use traceroute.Base.{
  if◌then◌else◌, ℕ, suc, ◌+◌, ◌*◌, ◌≡◌, refl, true, false, Option, none, some, List, [], ◌∷◌, map,
  Bytes, Outcome, ok, load8,
}
use traceroute.Address.{SocketAddress, af_inet, address_eq, family, is_v4, same_words}
use traceroute.Header.{icmp_type}
use traceroute.Packet.{udp, get_destination_address}
use traceroute.Response.{
  ResponseInfo, is_valid, validator_is_valid, is_ip_header_present, validate_all, udp_fields,
  get_icmp_type, skip_ip_header,
}
use traceroute.Probe.{ProbeResult, TracerouteResult, success_probe, failed_probe}
use traceroute.Tracer.{Env, get_time_left, get_time_passed_till_now}
use traceroute.Sequential.{
  Progress, begin_probing, ttl_loop, retry_loop, probe, receive_loop, judge, conclude, client_of,
}
use traceroute.Examples.Hosts.{server, datagram_packet, zeros, no_words}

-- What `tryReceiving` does: after which time, in microseconds, and with which message it returns.
abbrev pub Script : Type 0
Script = List (ℕ × Option ResponseInfo)

-- The clock in nanoseconds, what is left of the script, and how many packets were sent.
pub record Scripted : Type 0 where
  pub clock : ℕ
  pub script : Script
  pub sent : ℕ

-- Time exceeded from a router, destination unreachable from the server.
abbrev message : Option ResponseInfo → Bytes → Bytes
message none buffer = buffer
message (some info) [] = []
message (some info) (b ∷ rest) = (if address_eq info.client server then 3 else 11) ∷ rest

-- With an empty script the call waits for the whole timeout.
abbrev receive_by : Script → ℕ → ℕ → Bytes → ℕ → Outcome (Option ResponseInfo × Bytes × Scripted)
receive_by [] c n buffer timeout =
    ok (none, buffer, record { clock = c + timeout * 1000000; script = []; sent = n })
receive_by ((wait, resp) ∷ rest) c n buffer timeout =
    ok (resp, message resp buffer, record { clock = c + wait * 1000; script = rest; sent = n })

abbrev pub scripted : Env
scripted = record {
  World = Scripted;
  create_packet = λ w. ok (udp datagram_packet, w);
  try_sending =
      λ p ttl t w. ok (true, record { clock = w.clock; script = w.script; sent = suc w.sent });
  try_receiving = λ buffer timeout w. receive_by w.script w.clock w.sent buffer timeout;
  now = λ w. (w.clock, w);
}

abbrev router : ℕ → SocketAddress
router n = record { ss_family = af_inet; port = 0; word4 = n; sin6_addr = no_words }

abbrev from : SocketAddress → Option ResponseInfo
from a = some (record { client = a; protocol = 1; size = 56 })

abbrev pub begun : Script → Scripted
begun s = record { clock = 0; script = s; sent = 0 }

-- The hops of a run with a timeout of 100 ms, and the world that it leaves.
run : ℕ → ℕ → ℕ → Script → Outcome (Progress (List TracerouteResult) Scripted)
unfolding begin_probing ttl_loop retry_loop probe receive_loop judge conclude client_of
    get_time_left get_time_passed_till_now failed_probe success_probe is_valid validator_is_valid
    is_ip_header_present load8 validate_all udp_fields get_icmp_type skip_ip_header icmp_type
    address_eq family is_v4 same_words get_destination_address
run first last retries s =
    begin_probing scripted (suc (suc last)) 100001001 first last retries 100000 (zeros 64) (begun s)

answered_after : ℕ → SocketAddress → ProbeResult
answered_after waited sender = record {
  success = true;
  waited_for = waited;
  response_sender = some sender;
}

timed_out : ProbeResult
timed_out = record { success = false; waited_for = 100000; response_sender = none }

-- The probes of each hop, and the world at the end.
abbrev EndsWith :
    Outcome (Progress (List TracerouteResult) Scripted)
    → List (List ProbeResult)
    → Scripted
    → Type 0
EndsWith (ok p) results w =
    (map (λ (r : TracerouteResult). r.probe_results) p.result ≡ results) × (p.world ≡ w)
EndsWith _ results w = ⊥

-- `onTimeout_waitedFor_isEqualTo_timeout`, `responseAddressNotAssignedOnTimeout`
timeout_run :
    EndsWith
      (run 1 1 1 [])
      ((timed_out ∷ []) ∷ [])
      (record { clock = 100000000; script = []; sent = 1 })
unfolding run timed_out
timeout_run = (refl, refl)

-- `ttlRangeResultsInProbeCount`
range_run :
    EndsWith
      (run 2 5 1 [])
      ((timed_out ∷ []) ∷ (timed_out ∷ []) ∷ (timed_out ∷ []) ∷ (timed_out ∷ []) ∷ [])
      (record { clock = 400000000; script = []; sent = 4 })
unfolding run timed_out
range_run = (refl, refl)

-- `forEachRetryTtlIsNotChangedButPacketfactoryIsInvoked`
retries_run :
    EndsWith
      (run 1 1 3 [])
      ((timed_out ∷ timed_out ∷ timed_out ∷ []) ∷ [])
      (record { clock = 300000000; script = []; sent = 3 })
unfolding run timed_out
retries_run = (refl, refl)

-- `onTimeLeftSmallerThan_MinTimeWaitForResponse_receiveFromNotInvoked`: with 5 microseconds left
-- the second call, whose message would be accepted, is not made.
almost_run :
    EndsWith
      (run 1 1 1 ((99995, none) ∷ (0, from server) ∷ []))
      ((timed_out ∷ []) ∷ [])
      (record { clock = 99995000; script = (0, from server) ∷ []; sent = 1 })
unfolding run timed_out
almost_run = (refl, refl)

-- `responseIsAssignedToResultWithValidWaitedFor`
answer_run :
    EndsWith
      (run 1 1 1 ((50000, from server) ∷ []))
      ((answered_after 50000 server ∷ []) ∷ [])
      (record { clock = 50000000; script = []; sent = 1 })
unfolding run answered_after
answer_run = (refl, refl)

-- `waitedForIsSumOfPreviousInvalidResponses`
sum_run :
    EndsWith
      (run 1 1 1 ((10000, none) ∷ (30000, none) ∷ (40000, from server) ∷ []))
      ((answered_after 80000 server ∷ []) ∷ [])
      (record { clock = 80000000; script = []; sent = 1 })
unfolding run answered_after
sum_run = (refl, refl)

-- `timeoutBetweenTwoSuccessfulProbes`
between_run :
    EndsWith
      (run 1 3 1 ((0, from (router 1)) ∷ (100000, none) ∷ (0, from (router 3)) ∷ []))
      ((answered_after 0 (router 1) ∷ [])
        ∷ (timed_out ∷ [])
        ∷ (answered_after 0 (router 3) ∷ [])
        ∷ [])
      (record { clock = 100000000; script = []; sent = 3 })
unfolding run answered_after timed_out
between_run = (refl, refl)

-- The trace stops with the hop that the target answers.
stop_run :
    EndsWith
      (run 1 9 1 ((0, from (router 1)) ∷ (0, from server) ∷ (0, from (router 3)) ∷ []))
      ((answered_after 0 (router 1) ∷ []) ∷ (answered_after 0 server ∷ []) ∷ [])
      (record { clock = 0; script = (0, from (router 3)) ∷ []; sent = 2 })
unfolding run answered_after
stop_run = (refl, refl)
