-- ===== src/Report/Contract.antt =====
-- Both tracers keep what a caller of `beginProbing` may rely on.
use traceroute.Base.{[], suc, ◌+◌, ◌*◌, ◌≤◌, subst, List, Ensures-ok, arith}
use traceroute.Address.{SocketAddress}
use traceroute.Packet.{get_destination_address}
use traceroute.Probe.{TracerouteResult}
use traceroute.Tracer.{Env, IsEnv}
use traceroute.Sequential.History.{History-IsTrace}
use traceroute.Fast.Attribution.{Reach-IsAttributed}
use traceroute.Fast.{transform}
use traceroute.Fast.System.{Request}
use traceroute.Fast.Position.{IsRequest}
use traceroute.Fast.Outcomes.{finish-IsAnswer}
use traceroute.Report.{Returns, sequentially, concurrently}
use traceroute.Report.Promise.{StopsAt, IsToldHop, IsReport}
use traceroute.Report.Traces.{IsTrace-IsHopList, IsTrace-StopsAt, IsTrace-IsToldHop}
use traceroute.Report.Threads.{IsCut-StopsAt, IsCut-All, transform-IsToldHop}

-- If factory, network and clock keep `IsEnv`, then whichever tracer runs, the fast one in the
-- first call on an object, and however its threads interleave, if at least one probe for a hop
-- and a range of hops that does not wrap around is asked for: what `beginProbing` returns are
-- hops of the range in strictly increasing order, each with at least one and at most the asked
-- number of probes, and none but the last has an answer from the target. Each probe was given up,
-- or it reports the sender of a message that came from the network and that is accepted by a
-- packet that the factory made for the target and that was sent with the hop's time to live.
-- Given up means that a packet that the factory made for the target was sent with the hop's time
-- to live, that between two readings of the clock, the first of which counts as the time of the
-- sending, more than the timeout less 10 microseconds passed, and that the result reports a
-- failure after more than that time.
pub Returns-IsReport :
    (env : Env) (target : SocketAddress) (q : Request) (results : List TracerouteResult)
    → IsEnv env target
    → IsRequest q
    → 1 ≤ q.retries
    → Returns env q results
    → IsReport env target q results
Returns-IsReport env target q _ laws g o (sequentially t w p h e) =
    let trace =
      Ensures-ok
        (History-IsTrace env laws (suc (suc q.ttl_end)) (suc ((q.timeout + 1) * 1000)) q.ttl_begin
          q.ttl_end q.retries q.timeout t w h (omega arith) (omega (arith, g.ordered))
          (omega (arith, g.end_small)) (omega arith))
        e in
    record {
      hops =
          IsTrace-IsHopList env target q.retries q.timeout q.ttl_end q.ttl_begin p.result t.buffer w
            p.buffer p.world o trace;
      stops =
          IsTrace-StopsAt env target q.retries q.timeout q.ttl_end q.ttl_begin p.result t.buffer w
            p.buffer p.world trace;
      told =
          IsTrace-IsToldHop env target q.retries q.timeout q.ttl_end q.ttl_begin p.result t.buffer w
            p.buffer p.world trace;
    }
Returns-IsReport env target q _ laws g o (concurrently s results r gone e) =
    let answer = finish-IsAnswer env q g s results r e in
    let (aimed, _) = laws.create_lem s.locked.world answer.world answer.packet answer.creates in
    record {
      hops = answer.hops;
      stops =
          subst (λ t. StopsAt t results) aimed
            (IsCut-StopsAt (get_destination_address answer.packet) (transform s.locked.results)
              results answer.cut);
      told =
          IsCut-All (IsToldHop env target q.timeout) (get_destination_address answer.packet)
            (transform s.locked.results) results answer.cut
            (transform-IsToldHop env target q.timeout s.locked.results
              (Reach-IsAttributed env q laws [] s tt r).told.1);
    }
