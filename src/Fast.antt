-- ===== src/Fast.antt =====
-- src/FastTraceroute.cpp: all packets are sent by one thread while another receives.
-- This file has the code of both threads between two points where the other may run; their
-- interleavings are in Fast/System.
pub mod System
pub mod Conserve
pub mod Order
pub mod Position
pub mod Receiving
pub mod Sending
pub mod Invariant
pub mod Cut
pub mod Clock
pub mod SenderStep
pub mod Progress
pub mod Origin
pub mod Heard
pub mod Attribution
pub mod Outcomes
pub mod Complete
pub mod Pass
pub mod Failure
pub mod Hasty
pub mod Finish
pub mod Stray
pub mod Turns
pub mod Halting
use traceroute.Base.{
  ℕ, zero, suc, ◌+◌, ◌-◌, ◌*◌, ◌/◌, ◌%◌, ◌^◌, Bool, true, false, ◌||◌, ◌&&◌, ◌==◌, ltb, leb,
  if◌then◌else◌, Option, none, some, List, [], ◌∷◌, ◌++◌, map, length, Bytes, Outcome, ok, ◌>>=◌,
}
use traceroute.Address.{SocketAddress, address_eq}
use traceroute.Packet.{Packet, get_destination_address}
use traceroute.Response.{ResponseInfo, is_valid}
use traceroute.Probe.{ProbeResult, TracerouteResult, failed_probe, success_probe}
use traceroute.Tracer.{Env, get_time_left, get_time_passed_till_now, min_time_wait_for_response}

pub record PacketToValidate : Type 0 where
  pub packet : Packet
  pub sent_at : ℕ
  pub ttl : ℕ
  pub retry : ℕ

-- `std::map<unsigned, std::vector<ProbeResult>>`: the entries in the order of their keys.
abbrev pub ProbeMap : Type 0
ProbeMap = List (ℕ × List ProbeResult)

-- `ttlToProbeResults[ttl].push_back(result)`, which makes the entry if it is not there.
unfoldable pub push_result : ℕ → ProbeResult → ProbeMap → ProbeMap
push_result ttl result [] = (ttl, result ∷ []) ∷ []
push_result ttl result ((key, results) ∷ entries) =
    if ttl == key
    then (key, results ++ (result ∷ [])) ∷ entries
    else if ltb ttl key
    then (ttl, result ∷ []) ∷ (key, results) ∷ entries
    else (key, results) ∷ push_result ttl result entries

-- `getCurrentSize`: the total is an `unsigned` of 32 bits.
unfoldable pub current_size_from : ℕ → ProbeMap → ℕ
current_size_from total [] = total
current_size_from total ((key, results) ∷ entries) =
    current_size_from ((total + length results) % 2 ^ 32) entries

unfoldable pub get_current_size : ProbeMap → ℕ
unfolding current_size_from
get_current_size entries = current_size_from 0 entries

-- `std::find_if` by `isValid`, with the packets that are left once the found one is erased.
keep_before :
    PacketToValidate
    → Option (PacketToValidate × List PacketToValidate)
    → Option (PacketToValidate × List PacketToValidate)
keep_before p none = none
keep_before p (some (found, others)) = some (found, p ∷ others)

unfoldable pub find_valid :
    ResponseInfo
    → Bytes
    → List PacketToValidate
    → Outcome (Option (PacketToValidate × List PacketToValidate))
unfolding keep_before
find_valid info buffer [] = ok none
find_valid info buffer (p ∷ ps) = do
  valid ← is_valid p.packet info buffer
  if valid then ok (some (p, ps)) else (do r ← find_valid info buffer ps; ok (keep_before p r))

-- What the two threads share under the lock, and the receiver's map.
pub record Locked (W : Type 0) : Type 0 where
  pub packets : List PacketToValidate
  pub results : ProbeMap
  pub world : W

-- `duration_cast<milliseconds>(timeout) * expectedSize`, in microseconds.
unfoldable pub expected_max_time_taken : ℕ → ℕ → ℕ
expected_max_time_taken timeout expected_size = timeout / 1000 * expected_size * 1000

module _ (env : Env) where
  -- `if (validPacketIt != end(…))`: the result is recorded and the packet erased.
  unfoldable pub record_success :
      SocketAddress
      → Locked env.World
      → Option (PacketToValidate × List PacketToValidate)
      → Locked env.World
  record_success client s none = s
  record_success client s (some (found, others)) =
      let (waited, w) = get_time_passed_till_now env found.sent_at s.world in
      record {
        packets = others;
        results = push_result found.ttl (success_probe waited client) s.results;
        world = w;
      }

  -- `if (respInfo)`.
  unfoldable pub accept_response :
      Option ResponseInfo → Bytes → Locked env.World → Outcome (Locked env.World)
  accept_response none buffer s = ok s
  accept_response (some info) buffer s = do
    found ← find_valid info buffer s.packets
    ok (record_success info.client s found)

  -- The loop that gives up on packets; `kept` are the packets in front of the iterator. After
  -- `erase(it)` the iterator stands at the next packet.
  unfoldable pub expire_loop :
      ℕ → List PacketToValidate → List PacketToValidate → ProbeMap → env.World → Locked env.World
  expire_loop timeout kept [] results w = record { packets = kept; results = results; world = w }
  expire_loop timeout kept (p ∷ ps) results w =
      let (time_left, w₁) = get_time_left env p.sent_at timeout w in
      elim (ltb time_left min_time_wait_for_response) [
        | true ↦
            let (waited, w₂) = get_time_passed_till_now env p.sent_at w₁ in
            expire_loop timeout kept ps (push_result p.ttl (failed_probe waited) results) w₂
        | false ↦ expire_loop timeout (kept ++ (p ∷ [])) ps results w₁
      ]

  -- The section of the receiver under the lock.
  unfoldable pub locked_section :
      ℕ → Option ResponseInfo → Bytes → Locked env.World → Outcome (Locked env.World)
  locked_section timeout resp buffer s = do
    s' ← accept_response resp buffer s
    ok (expire_loop timeout [] s'.packets s'.results s'.world)

  -- The condition of the `while` loop, which reads the clock only if results are missing.
  unfoldable pub keeps_waiting : ℕ → ℕ → ℕ → ProbeMap → env.World → Bool × env.World
  keeps_waiting begin_at expected_size timeout results w =
      if ltb (get_current_size results) expected_size
      then (let (time_left, w') =
            get_time_left env begin_at (expected_max_time_taken timeout expected_size) w in
          (ltb 0 time_left, w'))
      else (false, w)

-- `(ttlEnd - ttlBegin + 1) * retries`, in `unsigned`.
unfoldable pub expected_size : ℕ → ℕ → ℕ → ℕ
expected_size ttl_begin ttl_end retries =
    (ttl_end + 2 ^ 32 - ttl_begin + 1) % 2 ^ 32 * retries % 2 ^ 32

to_result : ℕ × List ProbeResult → TracerouteResult
to_result (key, results) = record { ttl = key; probe_results = results }

unfoldable pub transform : ProbeMap → List TracerouteResult
unfolding to_result
transform [] = []
transform (entry ∷ entries) = to_result entry ∷ transform entries

-- `std::sort` by the time to live.
unfoldable pub insert_by_ttl : TracerouteResult → List TracerouteResult → List TracerouteResult
insert_by_ttl r [] = r ∷ []
insert_by_ttl r (s ∷ rest) = if ltb s.ttl r.ttl then s ∷ insert_by_ttl r rest else r ∷ s ∷ rest

unfoldable pub sort_by_ttl : List TracerouteResult → List TracerouteResult
unfolding insert_by_ttl
sort_by_ttl [] = []
sort_by_ttl (r ∷ rest) = insert_by_ttl r (sort_by_ttl rest)

unfoldable pub is_from : SocketAddress → Option SocketAddress → Bool
is_from target none = false
is_from target (some sender) = address_eq sender target

-- `std::any_of` over the probes of a hop.
unfoldable pub any_from : SocketAddress → List ProbeResult → Bool
unfolding is_from
any_from target [] = false
any_from target (r ∷ rest) = is_from target r.response_sender || any_from target rest

-- `std::find_if`, and `erase` of what stands behind the hop that it finds.
unfoldable pub cut_after : SocketAddress → List TracerouteResult → List TracerouteResult
unfolding any_from
cut_after target [] = []
cut_after target (r ∷ rest) =
    if any_from target r.probe_results then r ∷ [] else r ∷ cut_after target rest

module _ (env : Env) where
  -- What stands behind the loop.
  unfoldable pub finish : ProbeMap → env.World → Outcome (List TracerouteResult)
  finish results w = do
    let sorted = sort_by_ttl (transform results)
    (packet, w') ← env.create_packet w
    ok (cut_after (get_destination_address packet) sorted)
