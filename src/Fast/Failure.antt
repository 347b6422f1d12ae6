-- ===== src/Fast/Failure.antt =====
-- What a failed send of the fast tracer comes to: the exception stays in the future.
use traceroute.Base.{ℕ, suc, ◌-◌, ◌*◌, ◌^◌, ◌<◌, ◌≡◌, refl, ltb, lt→ltb, subst, [], arith}
use traceroute.Tracer.{Env, get_time_left}
use traceroute.Fast.{get_current_size, keeps_waiting, expected_size, expected_max_time_taken}
use traceroute.Fast.System.{Request, failed, System, Reach}
use traceroute.Fast.Position.{IsRequest, IsInside, pushed}
use traceroute.Fast.Invariant.{Reach-IsInvariant}
use traceroute.Fast.Complete.{more_hops, expected_size_lem, get_current_size_bounds}

module _ (env : Env) (q : Request) (g : IsRequest q) where
  failed-few :
      (s : System env.World)
      → (suc q.ttl_end - q.ttl_begin) * q.retries < 2 ^ 32
      → Reach env q [] s
      → s.sender.stage ≡ failed
      → get_current_size s.locked.results < expected_size q.ttl_begin q.ttl_end q.retries
  failed-few s small r f =
      let h = Reach-IsInvariant env q g [] s r in
      let (_, n) = h.flow in
      let (b, _, inside) = h.position in
      let (t, i) = subst (IsInside q s.sender.ttl s.sender.i) f inside in
      let less : pushed q s.sender < (suc q.ttl_end - q.ttl_begin) * q.retries = omega (
        arith,
        more_hops (s.sender.ttl - q.ttl_begin) (suc q.ttl_end - q.ttl_begin) q.retries
            (suc s.sender.i) (omega arith) i,
      ) in
      let (exact, _) = get_current_size_bounds env q g s small r in
      rw (exact, expected_size_lem q g small) (omega arith)

  -- In the first call on an object, if neither the range of hops nor the number of its packets
  -- wraps around: once a send has failed, the receiver has fewer results than it expects, and it
  -- goes on exactly as long as time is left, however many it gets.
  pub failed-keeps_waiting :
      (s : System env.World) (begin_at : ℕ) (w : env.World)
      → (suc q.ttl_end - q.ttl_begin) * q.retries < 2 ^ 32
      → Reach env q [] s
      → s.sender.stage ≡ failed
      → (get_current_size s.locked.results < expected_size q.ttl_begin q.ttl_end q.retries)
        × ((keeps_waiting env begin_at
              (expected_size q.ttl_begin q.ttl_end q.retries)
              q.timeout
              s.locked.results
              w).0
            ≡ ltb 0
                (get_time_left env begin_at
                  (expected_max_time_taken q.timeout
                    (expected_size q.ttl_begin q.ttl_end q.retries))
                  w).0)
  unfolding keeps_waiting
  failed-keeps_waiting s begin_at w small r f =
      let few = failed-few s small r f in (few, rw (lt→ltb _ _ few) refl)
