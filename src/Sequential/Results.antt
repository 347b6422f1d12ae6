-- ===== src/Sequential/Results.antt =====
-- The results of the sequential tracer.
use mathlib.Core.List.{append-nil, append_assoc}
use traceroute.Base.{
  ℕ, zero, suc, ◌+◌, ◌*◌, ◌%◌, ◌^◌, ◌≤◌, ◌<◌, ◌≡◌, refl, sym, ◌∙◌, true, false, leb, leb→le, Bytes,
  List, [], ◌∷◌, ◌++◌, length, Outcome, ok, Ensures, returns, Ensures-bind, Ensures-map, Bool-cases,
  inl, inr, arith,
}
use traceroute.Address.{SocketAddress}
use traceroute.Probe.{ProbeResult, TracerouteResult}
use traceroute.Tracer.{Env, IsEnv}
use traceroute.Sequential.{Progress, ttl_loop, begin_probing}
use traceroute.Sequential.Spec.{IsTrace}
use traceroute.Sequential.Retries.{Retries, retry_loop-Retries}

module _ (env : Env) {target : SocketAddress} (laws : IsEnv env target) where
  open laws use {time, now_reads, create_defined, create_lem, sending_defined, sending_lem}

  -- The results that the loop over the hops adds.
  abbrev Hops :
      ℕ
      → ℕ
      → ℕ
      → ℕ
      → List TracerouteResult
      → Bytes
      → env.World
      → Progress (List TracerouteResult) env.World
      → Type 0
  Hops retries timeout ttl_end ttl before buffer w p =
      (new : List TracerouteResult) × (p.result ≡ before ++ new)
      × IsTrace env target retries timeout ttl_end ttl new buffer w p.buffer p.world

  -- After the probes of one hop: the trace ends here, or goes on with the next hop.
  after_hop :
      (retries timeout ttl_end ttl : ℕ) (before : List TracerouteResult) (buffer : Bytes)
      (w : env.World) (p : Progress (List ProbeResult) env.World)
      (next : Outcome (Progress (List TracerouteResult) env.World))
      → ttl ≤ ttl_end
      → Retries env laws timeout ttl retries [] false buffer w p
      → Ensures
          (Hops retries timeout ttl_end
            (ttl + 1)
            (before ++ (record { ttl = ttl; probe_results = p.result } ∷ []))
            p.buffer
            p.world)
          next
      → Ensures (Hops retries timeout ttl_end ttl before buffer w) (elim p.destination_reached [
        | true ↦ ok (record {
          result = before ++ (record { ttl = ttl; probe_results = p.result } ∷ []);
          destination_reached = true;
          buffer = p.buffer;
          world = p.world;
        })
        | false ↦ next
      ])
  after_hop retries timeout ttl_end ttl before buffer w p next t (new, e, l, g, r, k) n =
      elim (Bool-cases p.destination_reached) [
        | inl d ↦ rw d (
            returns _ (
              record { ttl = ttl; probe_results = p.result } ∷ [],
              refl,
              (
                p.buffer,
                p.world,
                refl,
                t,
                rw e l,
                rw e g,
                inl (rw e (sym r ∙ d), refl, refl, refl),
              ),
            ))
        | inr d ↦ rw d (
            Ensures-map n (λ q (rest, e', trace). (
              record { ttl = ttl; probe_results = p.result } ∷ rest,
              e' ∙ append_assoc before _ rest,
              (p.buffer, p.world, refl, t, rw e l, rw e g, inr (rw e (sym r ∙ d), trace)),
            )))
      ]

  ttl_loop-Hops :
      (hops fuel ttl ttl_end retries timeout : ℕ) (before : List TracerouteResult) (buffer : Bytes)
      (w : env.World)
      → ttl_end + 1 < hops + ttl
      → ttl ≤ ttl_end + 1
      → ttl_end + 1 < 2 ^ 32
      → (timeout + 1) * 1000 < fuel
      → 137 ≤ length buffer
      → Ensures
          (Hops retries timeout ttl_end ttl before buffer w)
          (ttl_loop env hops fuel ttl ttl_end retries timeout before buffer w)
  unfolding ttl_loop
  ttl_loop-Hops zero fuel ttl ttl_end retries timeout before buffer w m t u f b =
      absurd (omega arith)
  ttl_loop-Hops (suc hops) fuel ttl ttl_end retries timeout before buffer w m t u f b =
      elim (Bool-cases (leb ttl ttl_end)) [
        | inr e ↦ rw (e, ttl_loop) (returns _ ([], sym (append-nil before), (beyond e, refl, refl)))
        | inl e ↦
            rw (e, ttl_loop)
              (Ensures-bind
                (retry_loop-Retries env laws fuel ttl timeout retries [] false buffer w f b)
                (λ p r.
                  after_hop retries timeout ttl_end ttl before buffer w p _ (leb→le ttl ttl_end e) r
                    (rw (no_wrap e) (
                      ttl_loop-Hops hops fuel (ttl + 1) ttl_end retries timeout _ p.buffer p.world
                        (omega arith) (omega (arith, leb→le ttl ttl_end e)) u f
                        (omega (arith, r.5))))))
      ]
    where
      beyond : leb ttl ttl_end ≡ false → ttl_end < ttl
      beyond e = ground arith

      no_wrap : leb ttl ttl_end ≡ true → (ttl + 1) % 2 ^ 32 ≡ ttl + 1
      no_wrap e = omega (arith, leb→le ttl ttl_end e)

  -- For a buffer of at least 137 bytes and a range that does not wrap around, with enough rounds
  -- and fuel, `beginProbing` throws or returns a trace.
  pub begin_probing-IsTrace :
      (hops fuel ttl_begin ttl_end retries timeout : ℕ) (buffer : Bytes) (w : env.World)
      → ttl_end + 1 < hops + ttl_begin
      → ttl_begin ≤ ttl_end + 1
      → ttl_end + 1 < 2 ^ 32
      → (timeout + 1) * 1000 < fuel
      → 137 ≤ length buffer
      → Ensures
          (λ p.
            IsTrace env target retries timeout ttl_end ttl_begin p.result buffer w p.buffer p.world)
          (begin_probing env hops fuel ttl_begin ttl_end retries timeout buffer w)
  unfolding begin_probing
  begin_probing-IsTrace hops fuel ttl_begin ttl_end retries timeout buffer w m t u f b =
      Ensures-map (ttl_loop-Hops hops fuel ttl_begin ttl_end retries timeout [] buffer w m t u f b)
        (λ p (new, e, trace). rw e trace)
