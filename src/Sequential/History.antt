-- ===== src/Sequential/History.antt =====
-- include/Traceroute/SequentialTraceroute.hpp: an object of the sequential tracer over all its
-- calls. Its buffer is never cleared, so a call begins with what the earlier ones received.
use traceroute.Base.{
  ℕ, ◌+◌, ◌*◌, ◌≤◌, ◌<◌, ◌^◌, ◌≡◌, ◌∙◌, ap, length, length-replicate, List, ok, throw, Exception,
  Ensures, arith,
}
use traceroute.Address.{SocketAddress}
use traceroute.Probe.{TracerouteResult}
use traceroute.Tracer.{Env, IsEnv, Traceroute, make_traceroute, buffer_size}
use traceroute.Sequential.{Progress, begin_probing}
use traceroute.Sequential.Spec.{IsTrace}
use traceroute.Sequential.Keeps.{begin_probing-length}
use traceroute.Sequential.Results.{begin_probing-IsTrace}
use traceroute.Sequential.Endless.{EndsReached, unsigned_max, begin_probing-EndsReached}

-- The objects of the class: one that was made, and one after a call, in any world and with any
-- arguments. What a call that throws wrote to the buffer before is not told.
pub data History (env : Env) : Traceroute env → Type 0 where
  made : History env (make_traceroute env)
  called :
      (t t' : Traceroute env) (hops fuel ttl_begin ttl_end retries timeout : ℕ) (w : env.World)
      (p : Progress (List TracerouteResult) env.World)
      → History env t
      → begin_probing env hops fuel ttl_begin ttl_end retries timeout t.buffer w ≡ ok p
      → t'.buffer ≡ p.buffer
      → History env t'
  broke_off :
      (t t' : Traceroute env) (hops fuel ttl_begin ttl_end retries timeout : ℕ) (w : env.World)
      (e : Exception)
      → History env t
      → begin_probing env hops fuel ttl_begin ttl_end retries timeout t.buffer w ≡ throw e
      → length t'.buffer ≡ length t.buffer
      → History env t'

module _ (env : Env) {target : SocketAddress} (laws : IsEnv env target) where
  pub History-length : (t : Traceroute env) → History env t → length t.buffer ≡ buffer_size
  unfolding make_traceroute
  History-length _ made = length-replicate {A = ℕ} buffer_size 0
  History-length t' (called t _ hops fuel ttl_begin ttl_end retries timeout w p h e k) =
      ap length k
      ∙ begin_probing-length env laws hops fuel ttl_begin ttl_end retries timeout t.buffer w p e
      ∙ History-length t h
  History-length t' (broke_off t _ hops fuel ttl_begin ttl_end retries timeout w e h _ k) =
      k ∙ History-length t h

  -- If factory, network and clock keep `IsEnv`: in any call on an object of the sequential
  -- tracer, whatever calls came before, for a last hop below 2 ^ 32 - 1 and a first one not above
  -- the next of it, with enough rounds for the hops and enough fuel for the time that the timeout
  -- allows, `beginProbing` ends: it throws, or returns a trace of the hops from `ttl_begin` on.
  -- In it the hops are consecutive and each has the number of probes asked for. The probes come
  -- one after the other, each in the world and with the buffer that the one before left. For each
  -- a new packet for the target was made and sent with the hop's time to live; from then on, as
  -- long as 10 microseconds of the timeout were left, a message was awaited for what was left. A
  -- successful probe reports the sender of the first message that the packet accepts and the time
  -- since the sending; a failed one reports the timeout: no message came that the packet accepts
  -- until less than 10 microseconds were left. The trace stops with the first hop that reached
  -- the target, else after `ttl_end`.
  pub History-IsTrace :
      (hops fuel ttl_begin ttl_end retries timeout : ℕ) (t : Traceroute env) (w : env.World)
      → History env t
      → ttl_end + 1 < hops + ttl_begin
      → ttl_begin ≤ ttl_end + 1
      → ttl_end + 1 < 2 ^ 32
      → (timeout + 1) * 1000 < fuel
      → Ensures
          (λ p.
            IsTrace env target retries timeout ttl_end ttl_begin p.result t.buffer w p.buffer
              p.world)
          (begin_probing env hops fuel ttl_begin ttl_end retries timeout t.buffer w)
  History-IsTrace hops fuel ttl_begin ttl_end retries timeout t w h m o u f =
      begin_probing-IsTrace env laws hops fuel ttl_begin ttl_end retries timeout t.buffer w m o u f
        (omega (arith, History-length t h))

  -- If factory, network and clock keep `IsEnv`, and the last hop is the largest `unsigned`, the
  -- loop over the hops has no end of its own: in any call on an object of the sequential tracer,
  -- whatever calls came before, with enough fuel for the waits, and whatever number of rounds it
  -- is given, `beginProbing` returns only if the last of the hops that it returns has an answer
  -- from the target.
  pub History-EndsReached :
      (hops fuel ttl_begin retries timeout : ℕ) (t : Traceroute env) (w : env.World)
      (p : Progress (List TracerouteResult) env.World)
      → History env t
      → ttl_begin < 2 ^ 32
      → (timeout + 1) * 1000 < fuel
      → begin_probing env hops fuel ttl_begin unsigned_max retries timeout t.buffer w ≡ ok p
      → EndsReached target p.result
  History-EndsReached hops fuel ttl_begin retries timeout t w p h b f e =
      begin_probing-EndsReached env laws hops fuel ttl_begin retries timeout t.buffer w p b f
        (omega (arith, History-length t h)) e
