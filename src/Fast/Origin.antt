-- ===== src/Fast/Origin.antt =====
-- Where the results come from: the section under the lock.
use traceroute.Base.{
  ℕ, ◌+◌, ◌<◌, ◌≡◌, refl, ◌∙◌, ap, Bool-cases, inl, inr, ◌==◌, ltb, Option, none, some, List, [],
  ◌∷◌, ◌++◌, All, All-append, Bytes, ok, first_call, ok-injective, subst, ==_iff, true, arith,
}
use traceroute.Address.{SocketAddress}
use traceroute.Response.{ResponseInfo, is_valid}
use traceroute.Probe.{ProbeResult, success_probe, failed_probe}
use traceroute.Tracer.{
  Env, IsEnv, get_time_left, get_time_passed_till_now, min_time_wait_for_response,
}
use traceroute.Tracer.Origin.{IsAimed, IsSent, IsReading, IsExpired, IsGivenUp, HasCome, IsResult}
use traceroute.Fast.{
  PacketToValidate, ProbeMap, push_result, find_valid, keep_before, Locked, record_success,
  accept_response, expire_loop, locked_section,
}

abbrev pub IsEntry : (env : Env) → SocketAddress → ℕ → ℕ × List ProbeResult → Type 0
IsEntry env target timeout (ttl, results) = All (IsResult env target timeout ttl) results

-- A packet that waits for an answer was made for the target and sent with its time to live, and
-- the clock was read for it.
abbrev pub IsWaiting : (env : Env) → SocketAddress → PacketToValidate → Type 0
IsWaiting env target p =
    IsAimed env target p.packet × IsSent env p.packet p.ttl × IsReading env p.sent_at

abbrev pub IsTold : (env : Env) → SocketAddress → ℕ → Locked env.World → Type 0
IsTold env target timeout l =
    All (IsWaiting env target) l.packets × All (IsEntry env target timeout) l.results

module _ (env : Env) {target : SocketAddress} (laws : IsEnv env target) (timeout : ℕ) where
  open laws use {time, now_reads}

  push_result-IsEntry :
      (ttl : ℕ) (r : ProbeResult) (entries : ProbeMap)
      → IsResult env target timeout ttl r
      → All (IsEntry env target timeout) entries
      → All (IsEntry env target timeout) (push_result ttl r entries)
  unfolding push_result
  push_result-IsEntry ttl r [] h k = ((h, tt), tt)
  push_result-IsEntry ttl r ((key, results) ∷ entries) h (now, k) = elim (Bool-cases (ttl == key)) [
    | inl y ↦
        let same : ttl ≡ key = (==_iff ttl key).0 y in
        rw y (
          All-append _ results (r ∷ []) now
              (subst (λ t. IsResult env target timeout t r) same h, tt),
          k,
        )
    | inr n ↦ elim (Bool-cases (ltb ttl key)) [
      | inl y ↦ rw (n, y) ((h, tt), (now, k))
      | inr m ↦ rw (n, m) (now, push_result-IsEntry ttl r entries h k)
    ]
  ]

  -- The packet that was found accepts the message.
  abbrev IsFound : ResponseInfo → Bytes → Option (PacketToValidate × List PacketToValidate) → Type 0
  IsFound info buffer none = Unit
  IsFound info buffer (some (found, others)) =
      IsWaiting env target found
      × (is_valid found.packet info buffer ≡ ok true)
      × All (IsWaiting env target) others

  keep_before-IsFound :
      (info : ResponseInfo) (buffer : Bytes) (p : PacketToValidate)
      (r : Option (PacketToValidate × List PacketToValidate))
      → IsWaiting env target p
      → IsFound info buffer r
      → IsFound info buffer (keep_before p r)
  unfolding keep_before
  keep_before-IsFound info buffer p none h k = tt
  keep_before-IsFound info buffer p (some (found, others)) h (w, v, k) = (w, v, (h, k))

  find_valid-IsFound :
      (info : ResponseInfo) (buffer : Bytes) (ps : List PacketToValidate)
      (r : Option (PacketToValidate × List PacketToValidate))
      → All (IsWaiting env target) ps
      → find_valid info buffer ps ≡ ok r
      → IsFound info buffer r
  unfolding find_valid
  find_valid-IsFound info buffer [] none h e = tt
  find_valid-IsFound info buffer [] (some r) h e = cc
  find_valid-IsFound info buffer (p ∷ ps) r (w, h) e =
      let (valid, v, k) = first_call (is_valid p.packet info buffer) e in
      elim (Bool-cases valid) [
        | inl y ↦
            let k' : ok (some (p, ps)) ≡ ok r = rw y at k in
            subst (IsFound info buffer) (ok-injective _ _ k') (w, v ∙ ap ok y, h)
        | inr n ↦
            let (q, f, g) = first_call (find_valid info buffer ps) (rw n at k) in
            subst (IsFound info buffer) (ok-injective _ _ g)
              (keep_before-IsFound info buffer p q w (find_valid-IsFound info buffer ps q h f))
      ]

  record_success-IsTold :
      (info : ResponseInfo) (buffer : Bytes) (s : Locked env.World)
      (r : Option (PacketToValidate × List PacketToValidate))
      → HasCome env info buffer
      → IsTold env target timeout s
      → IsFound info buffer r
      → IsTold env target timeout (record_success env info.client s r)
  unfolding record_success success_probe
  record_success-IsTold info buffer s none come h f = h
  record_success-IsTold info buffer s (some (found, others)) come (_, told) (w, v, k) = (
    k,
    push_result-IsEntry found.ttl _ s.results
        (inl (record {
          packet = found.packet;
          info = info;
          buffer = buffer;
          is_sent = w.1;
          has_come = come;
          accepts = v;
          for_target = w.0;
          succeeds = refl;
          reports = refl;
        }))
        told,
  )

  -- The clock is read again for what is reported, and it does not go back.
  given_up :
      (sent_at : ℕ) (w : env.World)
      → ltb (get_time_left env sent_at timeout w).0 min_time_wait_for_response ≡ true
      → timeout
        < (get_time_passed_till_now env sent_at (get_time_left env sent_at timeout w).1).0 + 10
  unfolding get_time_left get_time_passed_till_now
  given_up sent_at w h = ground (arith, now_reads w, now_reads (env.now w).1)

  expired :
      (sent_at : ℕ) (w : env.World)
      → ltb (get_time_left env sent_at timeout w).0 min_time_wait_for_response ≡ true
      → IsExpired env timeout sent_at w
  unfolding get_time_left
  expired sent_at w h = ground arith

  expired-IsGivenUp :
      (p : PacketToValidate) (w : env.World)
      → IsWaiting env target p
      → ltb (get_time_left env p.sent_at timeout w).0 min_time_wait_for_response ≡ true
      → IsGivenUp env target timeout p.ttl (
          failed_probe
            (get_time_passed_till_now env p.sent_at (get_time_left env p.sent_at timeout w).1).0)
  expired-IsGivenUp p w (aimed, sent, reading) h = record {
    packet = p.packet;
    sent_at = p.sent_at;
    waited = _;
    is_sent = sent;
    for_target = aimed;
    is_read = reading;
    expired = (w, expired p.sent_at w h);
    long = given_up p.sent_at w h;
    reports = refl;
  }

  expire_loop-IsTold :
      (kept ps : List PacketToValidate) (results : ProbeMap) (w : env.World)
      → All (IsWaiting env target) kept
      → All (IsWaiting env target) ps
      → All (IsEntry env target timeout) results
      → IsTold env target timeout (expire_loop env timeout kept ps results w)
  unfolding expire_loop
  expire_loop-IsTold kept [] results w a b h = (a, h)
  expire_loop-IsTold kept (p ∷ ps) results w a (o, b) h =
      elim (Bool-cases (ltb (get_time_left env p.sent_at timeout w).0 min_time_wait_for_response)) [
        | inl y ↦
            rw (y, expire_loop)
              (expire_loop-IsTold kept ps _ _ a b
                (push_result-IsEntry p.ttl _ results (inr (expired-IsGivenUp p w o y)) h))
        | inr n ↦
            rw (n, expire_loop)
              (expire_loop-IsTold (kept ++ (p ∷ [])) ps results _
                (All-append _ kept (p ∷ []) a (o, tt)) b h)
      ]

  accept_response-IsTold :
      (resp : Option ResponseInfo) (buffer : Bytes) (s s' : Locked env.World)
      → ((info : ResponseInfo) → resp ≡ some info → HasCome env info buffer)
      → IsTold env target timeout s
      → accept_response env resp buffer s ≡ ok s'
      → IsTold env target timeout s'
  unfolding accept_response
  accept_response-IsTold none buffer s s' come h e =
      subst (IsTold env target timeout) (ok-injective _ _ e) h
  accept_response-IsTold (some info) buffer s s' come h e =
      let (found, f, g) = first_call (find_valid info buffer s.packets) e in
      subst (IsTold env target timeout) (ok-injective _ _ g) (
        record_success-IsTold info buffer s found (come info refl) h
          (find_valid-IsFound info buffer s.packets found h.0 f))

  -- A pass under the lock keeps what is known of packets and results.
  pub locked_section-IsTold :
      (resp : Option ResponseInfo) (buffer : Bytes) (s s' : Locked env.World)
      → ((info : ResponseInfo) → resp ≡ some info → HasCome env info buffer)
      → IsTold env target timeout s
      → locked_section env timeout resp buffer s ≡ ok s'
      → IsTold env target timeout s'
  unfolding locked_section
  locked_section-IsTold resp buffer s s' come h e =
      let (m, f, g) = first_call (accept_response env resp buffer s) e in
      let (waiting, told) = accept_response-IsTold resp buffer s m come h f in
      subst (IsTold env target timeout) (ok-injective _ _ g)
        (expire_loop-IsTold [] m.packets m.results m.world tt waiting told)
