-- ===== src/Report.antt =====
-- include/Traceroute/interface/ITraceroute.hpp: the interface of both tracers. A caller holds an
-- `ITraceroute` and does not know which class runs.
pub mod Promise
pub mod Traces
pub mod Threads
pub mod Contract
pub mod Machine
pub mod Wiring
pub mod Life
pub mod AnyCall
use traceroute.Base.{[], ℕ, suc, ◌+◌, ◌*◌, ◌≡◌, List, Bytes, length, ok}
use traceroute.Probe.{TracerouteResult}
use traceroute.Tracer.{Env, Traceroute}
use traceroute.Sequential.History.{History}
use traceroute.Sequential.{Progress, begin_probing}
use traceroute.Fast.{finish}
use traceroute.Fast.System.{Request, System, Reach, left}

-- `beginProbing` returns a list of hops. The sequential tracer, in any call on an object, gets a
-- round for each hop and fuel for the time that the timeout, in microseconds, allows. Of the fast
-- one, in the first call on an object, the receiving thread has left its loop, wherever the
-- sending thread stands.
pub data Returns (env : Env) (q : Request) : List TracerouteResult → Type 0 where
  sequentially :
      (t : Traceroute env) (w : env.World) (p : Progress (List TracerouteResult) env.World)
      → History env t
      → begin_probing env
          (suc (suc q.ttl_end))
          (suc ((q.timeout + 1) * 1000))
          q.ttl_begin
          q.ttl_end
          q.retries
          q.timeout
          t.buffer
          w
        ≡ ok p
      → Returns env q p.result
  concurrently :
      (s : System env.World) (results : List TracerouteResult)
      → Reach env q [] s
      → s.receiver ≡ left
      → finish env s.locked.results s.locked.world ≡ ok results
      → Returns env q results
