-- ===== src/Sequential/Endless.antt =====
-- The loop over the hops for the largest `unsigned`: its condition `ttl <= ttlEnd` is always
-- true.
use traceroute.Base.{
  ℕ, zero, suc, ◌+◌, ◌-◌, ◌*◌, ◌%◌, ◌^◌, ◌≤◌, ◌<◌, ◌≡◌, refl, sym, ◌∙◌, true, false, leb, Bytes,
  List, [], ◌∷◌, ◌++◌, length, Outcome, ok, first_call, ok-injective, subst, ap, Ensures-ok,
  Bool-cases, inl, inr, arith,
}
use traceroute.Address.{SocketAddress}
use traceroute.Probe.{ProbeResult, TracerouteResult}
use traceroute.Tracer.{Env, IsEnv}
use traceroute.Sequential.{Progress, retry_loop, ttl_loop, begin_probing}
use traceroute.Sequential.Spec.{any_reached}
use traceroute.Sequential.Retries.{Retries, retry_loop-Retries}

-- `std::numeric_limits<unsigned>::max()`.
abbrev pub unsigned_max : ℕ
unsigned_max = 2 ^ 32 - 1

-- The last hop of the results has an answer from the target.
abbrev pub EndsReached : SocketAddress → List TracerouteResult → Type 0
EndsReached target results =
    (front : List TracerouteResult) × (last : TracerouteResult) × (results ≡ front ++ (last ∷ []))
    × (any_reached target last.probe_results ≡ true)

always-leb : (ttl : ℕ) → ttl < 2 ^ 32 → leb ttl unsigned_max ≡ true
always-leb ttl h = ground arith

module _ (env : Env) {target : SocketAddress} (laws : IsEnv env target) where
  hop-EndsReached :
      (retries timeout ttl : ℕ) (before : List TracerouteResult) (buffer : Bytes) (w : env.World)
      (h : Progress (List ProbeResult) env.World) (p : Progress (List TracerouteResult) env.World)
      (next : Outcome (Progress (List TracerouteResult) env.World))
      → Retries env laws timeout ttl retries [] false buffer w h
      → (next ≡ ok p → EndsReached target p.result)
      → (elim h.destination_reached [
        | true ↦ ok (record {
          result = before ++ (record { ttl = ttl; probe_results = h.result } ∷ []);
          destination_reached = true;
          buffer = h.buffer;
          world = h.world;
        })
        | false ↦ next
      ])
        ≡ ok p
      → EndsReached target p.result
  hop-EndsReached retries timeout ttl before buffer w h p next (new, e, _, _, r, _) k q =
      elim (Bool-cases h.destination_reached) [
        | inl d ↦
            let j : ok (record {
              result = before ++ (record { ttl = ttl; probe_results = h.result } ∷ []);
              destination_reached = true;
              buffer = h.buffer;
              world = h.world;
            })
                ≡ ok p =
              rw d at q in
            subst (λ (x : Progress (List TracerouteResult) env.World). EndsReached target x.result)
              (ok-injective _ _ j)
              (
                before,
                record { ttl = ttl; probe_results = h.result },
                refl,
                ap (any_reached target) e ∙ sym r ∙ d,
              )
        | inr d ↦ k (rw d at q)
      ]

  ttl_loop-EndsReached :
      (hops fuel ttl retries timeout : ℕ) (before : List TracerouteResult) (buffer : Bytes)
      (w : env.World) (p : Progress (List TracerouteResult) env.World)
      → ttl < 2 ^ 32
      → (timeout + 1) * 1000 < fuel
      → 137 ≤ length buffer
      → ttl_loop env hops fuel ttl unsigned_max retries timeout before buffer w ≡ ok p
      → EndsReached target p.result
  unfolding ttl_loop
  ttl_loop-EndsReached zero fuel ttl retries timeout before buffer w p t f b e = cc
  ttl_loop-EndsReached (suc hops) fuel ttl retries timeout before buffer w p t f b e =
      let (h, c, k) =
        first_call (retry_loop env fuel ttl timeout retries [] false buffer w)
          (rw (always-leb ttl t, ttl_loop) at e) in
      let r =
        Ensures-ok (retry_loop-Retries env laws fuel ttl timeout retries [] false buffer w f b) c in
      hop-EndsReached retries timeout ttl before buffer w h p _ r
        (λ d.
          ttl_loop-EndsReached hops fuel ((ttl + 1) % 2 ^ 32) retries timeout _ h.buffer h.world p
            (omega arith) f (omega (arith, r.5)) d)
        k

  -- For a buffer of at least 137 bytes, and with enough fuel for the waits, `beginProbing`
  -- returns only if the last of the hops that it returns has an answer from the target.
  pub begin_probing-EndsReached :
      (hops fuel ttl_begin retries timeout : ℕ) (buffer : Bytes) (w : env.World)
      (p : Progress (List TracerouteResult) env.World)
      → ttl_begin < 2 ^ 32
      → (timeout + 1) * 1000 < fuel
      → 137 ≤ length buffer
      → begin_probing env hops fuel ttl_begin unsigned_max retries timeout buffer w ≡ ok p
      → EndsReached target p.result
  unfolding begin_probing
  begin_probing-EndsReached hops fuel ttl_begin retries timeout buffer w p t f b e =
      ttl_loop-EndsReached hops fuel ttl_begin retries timeout [] buffer w p t f b e
