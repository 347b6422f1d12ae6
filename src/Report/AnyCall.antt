-- ===== src/Report/AnyCall.antt =====
-- What `beginProbing` may return in any call on an object of either class.
use traceroute.Base.{◌≤◌, ◌≡◌, All, List, ok}
use traceroute.Address.{SocketAddress}
use traceroute.Probe.{TracerouteResult}
use traceroute.Tracer.{Env, IsEnv}
use traceroute.Fast.{PacketToValidate, finish}
use traceroute.Fast.System.{Request, System, Reach, left}
use traceroute.Fast.Position.{IsRequest}
use traceroute.Report.{Returns}
use traceroute.Report.Promise.{IsToldHop}
use traceroute.Report.Contract.{Returns-IsReport}
use traceroute.Report.Life.{Life, Life-IsTale}

-- Any call of the sequential tracer and the first of the fast one, or a later call of the fast
-- one, which begins with the packets that earlier calls left.
pub data Answers (env : Env) (q : Request) (results : List TracerouteResult) : Type 0 where
  returned : Returns env q results → Answers env q results
  later :
      (old : List PacketToValidate) (s : System env.World)
      → Life env old
      → Reach env q old s
      → s.receiver ≡ left
      → finish env s.locked.results s.locked.world ≡ ok results
      → Answers env q results

-- Each probe was given up or answered, in any call.
pub Answers-told :
    (env : Env) (target : SocketAddress) (q : Request) (results : List TracerouteResult)
    → IsEnv env target
    → IsRequest q
    → 1 ≤ q.retries
    → Answers env q results
    → All (IsToldHop env target q.timeout) results
Answers-told env target q results laws g o (returned r) =
    (Returns-IsReport env target q results laws g o r).told
Answers-told env target q results laws g o (later old s life r gone e) =
    (Life-IsTale env laws q old s results g life r e).told
