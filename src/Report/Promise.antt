-- ===== src/Report/Promise.antt =====
-- What a caller of `beginProbing` may rely on.
use traceroute.Base.{All, ℕ, ◌≡◌, ◌⊎◌, false, List, [], ◌∷◌}
use traceroute.Address.{SocketAddress}
use traceroute.Probe.{TracerouteResult}
use traceroute.Tracer.{Env}
use traceroute.Tracer.Origin.{IsResult}
use traceroute.Sequential.Spec.{any_reached}
use traceroute.Fast.System.{Request}
use traceroute.Fast.Outcomes.{IsHopList}

-- A hop that was reached by the target is the last one.
abbrev pub StopsAt : SocketAddress → List TracerouteResult → Type 0
StopsAt target [] = Unit
StopsAt target (r ∷ rest) =
    ((any_reached target r.probe_results ≡ false) ⊎ (rest ≡ [])) × StopsAt target rest

-- Each probe of a hop was given up, or answered.
abbrev pub IsToldHop : Env → SocketAddress → ℕ → TracerouteResult → Type 0
IsToldHop env target timeout r = All (IsResult env target timeout r.ttl) r.probe_results

-- The hops lie in the range and in order, each with at least one probe and at most the asked
-- number; only the last one may be reached.
pub record IsReport (env : Env) (target : SocketAddress) (q : Request)
    (results : List TracerouteResult) : Type 0 where
  pub hops : IsHopList q.ttl_begin q.ttl_end q.retries results
  pub stops : StopsAt target results
  pub told : All (IsToldHop env target q.timeout) results
