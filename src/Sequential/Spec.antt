-- ===== src/Sequential/Spec.antt =====
-- What the sequential tracer promises, without its loops.
use traceroute.Base.{
  ℕ, ◌+◌, ◌<◌, ◌≤◌, ◌≡◌, ◌⊎◌, Bool, true, false, ◌||◌, Option, none, some, List, [], ◌∷◌, length,
  Bytes, ok,
}
use traceroute.Address.{SocketAddress, address_eq}
use traceroute.Packet.{Packet, get_destination_address}
use traceroute.Response.{ResponseInfo}
use traceroute.Tracer.{Env}
use traceroute.Probe.{ProbeResult, TracerouteResult}
use traceroute.Sequential.Waits.{Waits, Reports}

-- The world that a probe leaves: for an answer the clock is read once more.
abbrev pub after : (env : Env) → Option ResponseInfo → env.World → env.World
after env none w = w
after env (some info) w = (env.now w).1

-- A probe that begins with a buffer and a world and ends with others: a packet for the target was
-- made and sent with the time to live of the hop, and the result reports how the wait for its
-- answer ended.
pub record IsProbe (env : Env) (target : SocketAddress) (timeout ttl : ℕ) (r : ProbeResult)
    (b : Bytes) (w : env.World) (b' : Bytes) (w' : env.World) : Type 0 where
  pub packet : Packet
  pub made : env.World
  pub sent : env.World
  pub answer : Option ResponseInfo
  pub w_end : env.World
  pub is_created : env.create_packet w ≡ ok (packet, made)
  pub for_target : get_destination_address packet ≡ target
  pub is_sent : env.try_sending packet ttl 5000 made ≡ ok (true, sent)
  pub waits : Waits env packet (env.now sent).0 timeout answer b' w_end b (env.now sent).1
  pub reports : Reports env (env.now sent).0 timeout w_end answer r
  pub leaves : w' ≡ after env answer w_end

-- One probe after the other.
abbrev pub IsProbes :
    (env : Env)
    → SocketAddress
    → ℕ
    → ℕ
    → List ProbeResult
    → Bytes
    → env.World
    → Bytes
    → env.World
    → Type 0
IsProbes env target timeout ttl [] b w b' w' = (b' ≡ b) × (w' ≡ w)
IsProbes env target timeout ttl (r ∷ rs) b w b' w' =
    (b₁ : Bytes) × (w₁ : env.World) × IsProbe env target timeout ttl r b w b₁ w₁
    × IsProbes env target timeout ttl rs b₁ w₁ b' w'

abbrev pub sent_by : SocketAddress → Option SocketAddress → Bool
sent_by target none = false
sent_by target (some a) = address_eq a target

-- Did one of the probes reach the target?
abbrev pub any_reached : SocketAddress → List ProbeResult → Bool
any_reached target [] = false
any_reached target (r ∷ rs) = sent_by target r.response_sender || any_reached target rs

-- The results of the hops from `ttl` on, one after the other: one for each hop, in order, with as
-- many probes as were asked for, until the target was reached or the last hop is done.
abbrev pub IsTrace :
    (env : Env)
    → SocketAddress
    → ℕ
    → ℕ
    → ℕ
    → ℕ
    → List TracerouteResult
    → Bytes
    → env.World
    → Bytes
    → env.World
    → Type 0
IsTrace env target retries timeout ttl_end ttl [] b w b' w' = (ttl_end < ttl) × (b' ≡ b) × (w' ≡ w)
IsTrace env target retries timeout ttl_end ttl (r ∷ rs) b w b' w' =
    (b₁ : Bytes) × (w₁ : env.World) × (r.ttl ≡ ttl)
    × (ttl ≤ ttl_end)
    × (length r.probe_results ≡ retries)
    × IsProbes env target timeout ttl r.probe_results b w b₁ w₁
    × (((any_reached target r.probe_results ≡ true) × (rs ≡ []) × (b' ≡ b₁) × (w' ≡ w₁))
        ⊎ ((any_reached target r.probe_results ≡ false)
            × IsTrace env target retries timeout ttl_end (ttl + 1) rs b₁ w₁ b' w'))
