-- ===== src/Sequential.antt =====
-- src/SequentialTraceroute.cpp: one probe at a time.
-- The `while (true)` loop of a probe runs on `fuel`, and the loop over the hops on `hops`.
pub mod Loop
pub mod Waits
pub mod Spec
pub mod Probes
pub mod Retries
pub mod Results
pub mod Endless
pub mod Keeps
pub mod History
use traceroute.Base.{
  ℕ, zero, suc, ◌+◌, ◌/◌, ◌%◌, ◌^◌, Bool, true, false, ◌||◌, not, ltb, leb, if◌then◌else◌, Option,
  none, some, List, [], ◌∷◌, ◌++◌, Bytes, Outcome, ok, throw, undefined, out_of_fuel, ◌>>=◌,
  send_failed,
}
use traceroute.Address.{SocketAddress, address_eq}
use traceroute.Packet.{Packet, get_destination_address}
use traceroute.Response.{ResponseInfo, is_valid}
use traceroute.Probe.{ProbeResult, TracerouteResult, failed_probe, success_probe}
use traceroute.Tracer.{Env, get_time_left, get_time_passed_till_now, min_time_wait_for_response}

-- The variables that the `while` loop leaves behind, with the buffer and the world.
pub record Received (W : Type 0) : Type 0 where
  pub is_response_valid : Bool
  pub resp_info : Option ResponseInfo
  pub buffer : Bytes
  pub world : W

-- `if (respInfo) isResponseValid = packet->isValid(…);`
unfoldable pub judge : Packet → Bool → Option ResponseInfo → Bytes → Outcome Bool
judge packet valid none buffer = ok valid
judge packet valid (some info) buffer = is_valid packet info buffer

-- `respInfo->client()`.
unfoldable pub client_of : Option ResponseInfo → Outcome SocketAddress
client_of none = undefined
client_of (some info) = ok info.client

-- What a probe and the loops over probes hand on: a result, the flag `destinationReached`, the
-- buffer and the world.
pub record Progress (A W : Type 0) : Type 0 where
  pub result : A
  pub destination_reached : Bool
  pub buffer : Bytes
  pub world : W

module _ (env : Env) where
  unfoldable pub receive_loop :
      ℕ
      → Packet
      → ℕ
      → ℕ
      → Bool
      → Option ResponseInfo
      → Bytes
      → env.World
      → Outcome (Received env.World)
  receive_loop zero packet sent_at timeout valid resp buffer w = out_of_fuel
  receive_loop (suc fuel) packet sent_at timeout valid resp buffer w =
      let (time_left, w₁) = get_time_left env sent_at timeout w in
      elim (valid || ltb time_left min_time_wait_for_response) [
        | true ↦
            ok (record { is_response_valid = valid; resp_info = resp; buffer = buffer; world = w₁ })
        | false ↦ do
          (resp', buffer', w₂) ← env.try_receiving buffer (time_left / 1000) w₁
          valid' ← judge packet valid resp' buffer'
          receive_loop fuel packet sent_at timeout valid' resp' buffer' w₂
      ]

  -- What is pushed to `probeResults` after the loop.
  unfoldable pub conclude :
      Packet → ℕ → ℕ → Bool → Received env.World → Outcome (Progress ProbeResult env.World)
  conclude packet sent_at timeout reached r =
      if r.is_response_valid
      then (do
        let (waited, w) = get_time_passed_till_now env sent_at r.world
        client ← client_of r.resp_info
        ok (record {
          result = success_probe waited client;
          destination_reached =
              if address_eq client (get_destination_address packet) then true else reached;
          buffer = r.buffer;
          world = w;
        }))
      else ok (record {
        result = failed_probe timeout;
        destination_reached = reached;
        buffer = r.buffer;
        world = r.world;
      })

  -- The body of the loop over `retries`.
  unfoldable pub probe :
      ℕ → ℕ → ℕ → Bool → Bytes → env.World → Outcome (Progress ProbeResult env.World)
  probe fuel ttl timeout reached buffer w = do
    (packet, w₁) ← env.create_packet w
    (sent, w₂) ← env.try_sending packet ttl 5000 w₁
    if not sent then throw send_failed else (do
      let (sent_at, w₃) = env.now w₂
      r ← receive_loop fuel packet sent_at timeout false none buffer w₃
      conclude packet sent_at timeout reached r)

  -- `for (unsigned i = 0; i < retries; i++)`, with `left` rounds to go.
  unfoldable pub retry_loop :
      ℕ
      → ℕ
      → ℕ
      → ℕ
      → List ProbeResult
      → Bool
      → Bytes
      → env.World
      → Outcome (Progress (List ProbeResult) env.World)
  retry_loop fuel ttl timeout zero probe_results reached buffer w =
      ok (record {
        result = probe_results;
        destination_reached = reached;
        buffer = buffer;
        world = w;
      })
  retry_loop fuel ttl timeout (suc left) probe_results reached buffer w = do
    p ← probe fuel ttl timeout reached buffer w
    retry_loop fuel ttl timeout left (probe_results ++ (p.result ∷ [])) p.destination_reached
        p.buffer p.world

  -- `for (unsigned ttl = ttlBegin; ttl <= ttlEnd; ++ttl)`; `unsigned` has 32 bits.
  unfoldable pub ttl_loop :
      ℕ
      → ℕ
      → ℕ
      → ℕ
      → ℕ
      → ℕ
      → List TracerouteResult
      → Bytes
      → env.World
      → Outcome (Progress (List TracerouteResult) env.World)
  ttl_loop zero fuel ttl ttl_end retries timeout probes buffer w = out_of_fuel
  ttl_loop (suc hops) fuel ttl ttl_end retries timeout probes buffer w = elim (leb ttl ttl_end) [
    | false ↦
        ok (record { result = probes; destination_reached = false; buffer = buffer; world = w })
    | true ↦ do
      p ← retry_loop fuel ttl timeout retries [] false buffer w
      let probes' = probes ++ (record { ttl = ttl; probe_results = p.result } ∷ [])
      elim p.destination_reached [
        | true ↦ ok (record {
          result = probes';
          destination_reached = true;
          buffer = p.buffer;
          world = p.world;
        })
        | false ↦
            ttl_loop hops fuel ((ttl + 1) % 2 ^ 32) ttl_end retries timeout probes' p.buffer p.world
      ]
  ]

  -- `beginProbing`; `destinationReached` is false whenever a hop begins.
  unfoldable pub begin_probing :
      ℕ
      → ℕ
      → ℕ
      → ℕ
      → ℕ
      → ℕ
      → Bytes
      → env.World
      → Outcome (Progress (List TracerouteResult) env.World)
  unfolding ttl_loop
  begin_probing hops fuel ttl_begin ttl_end retries timeout buffer w =
      ttl_loop hops fuel ttl_begin ttl_end retries timeout [] buffer w
