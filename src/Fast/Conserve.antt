-- ===== src/Fast/Conserve.antt =====
-- Packets and results through the section under the lock, counted for each hop and in all.
use traceroute.Base.{
  ℕ, suc, ◌+◌, ◌≡◌, refl, ◌∙◌, ap, Bool-cases, inl, inr, ◌==◌, ltb, if◌then◌else◌, Option, none,
  some, List, [], ◌∷◌, ◌++◌, length, length-append, Bytes, ok, first_call, ok-injective, subst,
  arith,
}
use traceroute.Address.{SocketAddress}
use traceroute.Response.{ResponseInfo, is_valid}
use traceroute.Probe.{ProbeResult, failed_probe}
use traceroute.Tracer.{Env, get_time_left, get_time_passed_till_now, min_time_wait_for_response}
use traceroute.Fast.{
  PacketToValidate, ProbeMap, push_result, find_valid, keep_before, Locked, record_success,
  accept_response, expire_loop, locked_section,
}

-- The results that are recorded for a hop, and the packets for it.
abbrev pub results_at : ℕ → ProbeMap → ℕ
results_at ttl [] = 0
results_at ttl ((key, results) ∷ entries) =
    (if key == ttl then length results else 0) + results_at ttl entries

abbrev pub packets_at : ℕ → List PacketToValidate → ℕ
packets_at ttl [] = 0
packets_at ttl (p ∷ ps) = (if p.ttl == ttl then 1 else 0) + packets_at ttl ps

abbrev pub results_in : ProbeMap → ℕ
results_in [] = 0
results_in ((key, results) ∷ entries) = length results + results_in entries

-- Packets and results together, for a hop and in all.
abbrev pub Conserves : {W : Type 0} → Locked W → Locked W → Type 0
Conserves s s' =
    ((ttl : ℕ)
      → packets_at ttl s'.packets + results_at ttl s'.results
        ≡ packets_at ttl s.packets + results_at ttl s.results)
    × (length s'.packets + results_in s'.results ≡ length s.packets + results_in s.results)

pub results_at-push_result :
    (t ttl : ℕ) (r : ProbeResult) (entries : ProbeMap)
    → results_at t (push_result ttl r entries) ≡ (if ttl == t then 1 else 0) + results_at t entries
unfolding push_result
results_at-push_result t ttl r [] = ground arith
results_at-push_result t ttl r ((key, results) ∷ entries) =
    ground (arith, length-append results (r ∷ []), results_at-push_result t ttl r entries)

pub results_in-push_result :
    (ttl : ℕ) (r : ProbeResult) (entries : ProbeMap)
    → results_in (push_result ttl r entries) ≡ suc (results_in entries)
unfolding push_result
results_in-push_result ttl r [] = refl
results_in-push_result ttl r ((key, results) ∷ entries) =
    ground (arith, length-append results (r ∷ []), results_in-push_result ttl r entries)

pub packets_at-append :
    (t : ℕ) (ps qs : List PacketToValidate)
    → packets_at t (ps ++ qs) ≡ packets_at t ps + packets_at t qs
packets_at-append t [] qs = omega arith
packets_at-append t (p ∷ ps) qs = omega (arith, packets_at-append t ps qs)

-- The packet that is found was one of the packets, and the others are left.
abbrev IsTaken : List PacketToValidate → Option (PacketToValidate × List PacketToValidate) → Type 0
IsTaken ps none = Unit
IsTaken ps (some (found, others)) =
    ((t : ℕ) → packets_at t ps ≡ (if found.ttl == t then 1 else 0) + packets_at t others)
    × (length ps ≡ suc (length others))

keep_before-IsTaken :
    (p : PacketToValidate) (ps : List PacketToValidate)
    (r : Option (PacketToValidate × List PacketToValidate))
    → IsTaken ps r
    → IsTaken (p ∷ ps) (keep_before p r)
unfolding keep_before
keep_before-IsTaken p ps none h = tt
keep_before-IsTaken p ps (some (found, others)) (h, l) = (λ t. omega (arith, h t), ap suc l)

find_valid-IsTaken :
    (info : ResponseInfo) (buffer : Bytes) (ps : List PacketToValidate)
    (r : Option (PacketToValidate × List PacketToValidate))
    → find_valid info buffer ps ≡ ok r
    → IsTaken ps r
unfolding find_valid
find_valid-IsTaken info buffer [] none e = tt
find_valid-IsTaken info buffer [] (some r) e = cc
find_valid-IsTaken info buffer (p ∷ ps) r e =
    let (valid, v, k) = first_call (is_valid p.packet info buffer) e in
    elim (Bool-cases valid) [
      | inl y ↦
          let k' : ok (some (p, ps)) ≡ ok r = rw y at k in
          subst (IsTaken (p ∷ ps)) (ok-injective _ _ k') (λ t. refl, refl)
      | inr n ↦
          let (q, f, g) = first_call (find_valid info buffer ps) (rw n at k) in
          subst (IsTaken (p ∷ ps)) (ok-injective _ _ g)
            (keep_before-IsTaken p ps q (find_valid-IsTaken info buffer ps q f))
    ]

module _ (env : Env) where
  record_success-Conserves :
      (client : SocketAddress) (s : Locked env.World)
      (r : Option (PacketToValidate × List PacketToValidate))
      → IsTaken s.packets r
      → Conserves s (record_success env client s r)
  unfolding record_success
  record_success-Conserves client s none h = (λ t. refl, refl)
  record_success-Conserves client s (some (found, others)) (h, l) = (
    λ t. omega (arith, h t, results_at-push_result t found.ttl _ s.results),
    omega (arith, results_in-push_result found.ttl _ s.results),
  )

  expire_loop-Conserves :
      (timeout : ℕ) (kept ps : List PacketToValidate) (results : ProbeMap) (w : env.World)
      → Conserves
          (record { packets = kept ++ ps; results = results; world = w })
          (expire_loop env timeout kept ps results w)
  unfolding expire_loop
  expire_loop-Conserves timeout kept [] results w =
      (λ t. omega (arith, packets_at-append t kept []), omega (arith, length-append kept []))
  expire_loop-Conserves timeout kept (p ∷ ps) results w =
      elim (Bool-cases (ltb (get_time_left env p.sent_at timeout w).0 min_time_wait_for_response)) [
        | inl y ↦
            let r =
              failed_probe
                (get_time_passed_till_now env p.sent_at
                  (get_time_left env p.sent_at timeout w).1).0 in
            let w₂ =
              (get_time_passed_till_now env p.sent_at
                (get_time_left env p.sent_at timeout w).1).1 in
            let (h, l) = expire_loop-Conserves timeout kept ps (push_result p.ttl r results) w₂ in
            rw (y, expire_loop)
              (
                λ t. omega (
                  arith,
                  h t,
                  results_at-push_result t p.ttl r results,
                  packets_at-append t kept (p ∷ ps),
                  packets_at-append t kept ps,
                ),
                omega (
                  arith,
                  l,
                  results_in-push_result p.ttl r results,
                  length-append kept (p ∷ ps),
                  length-append kept ps,
                ),
              )
        | inr n ↦
            let w₁ = (get_time_left env p.sent_at timeout w).1 in
            let (h, l) = expire_loop-Conserves timeout (kept ++ (p ∷ [])) ps results w₁ in
            let keeps : (t : ℕ)
                → packets_at t ((kept ++ (p ∷ [])) ++ ps) ≡ packets_at t (kept ++ (p ∷ ps)) =
              λ t. omega (
                arith,
                packets_at-append t (kept ++ (p ∷ [])) ps,
                packets_at-append t kept (p ∷ []),
                packets_at-append t kept (p ∷ ps),
              ) in
            rw (n, expire_loop)
              (
                λ t. omega (arith, h t, keeps t),
                omega (
                  arith,
                  l,
                  length-append (kept ++ (p ∷ [])) ps,
                  length-append kept (p ∷ []),
                  length-append kept (p ∷ ps),
                ),
              )
      ]

  accept_response-Conserves :
      (resp : Option ResponseInfo) (buffer : Bytes) (s s' : Locked env.World)
      → accept_response env resp buffer s ≡ ok s'
      → Conserves s s'
  unfolding accept_response
  accept_response-Conserves none buffer s s' e =
      subst (Conserves s) (ok-injective _ _ e) (λ t. refl, refl)
  accept_response-Conserves (some info) buffer s s' e =
      let (found, f, g) = first_call (find_valid info buffer s.packets) e in
      subst (Conserves s) (ok-injective _ _ g) (
        record_success-Conserves info.client s found
          (find_valid-IsTaken info buffer s.packets found f))

  -- One pass of the receiver under the lock moves packets to results and keeps, for each hop and
  -- in all, the number of packets and results together.
  pub locked_section-Conserves :
      (timeout : ℕ) (resp : Option ResponseInfo) (buffer : Bytes) (s s' : Locked env.World)
      → locked_section env timeout resp buffer s ≡ ok s'
      → Conserves s s'
  unfolding locked_section
  locked_section-Conserves timeout resp buffer s s' e =
      let (m, f, g) = first_call (accept_response env resp buffer s) e in
      let (h, l) = accept_response-Conserves resp buffer s m f in
      let (h', l') = expire_loop-Conserves timeout [] m.packets m.results m.world in
      subst (Conserves s) (ok-injective _ _ g) (λ t. h' t ∙ h t, l' ∙ l)
