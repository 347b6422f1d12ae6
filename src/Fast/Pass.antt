-- ===== src/Fast/Pass.antt =====
-- What one pass under the lock does, without the iterators.
use mathlib.Core.List.{append-nil, append_assoc}
use traceroute.Base.{
  ℕ, ◌+◌, ◌≤◌, ◌≡◌, refl, sym, ap, ◌∙◌, subst, Bool-cases, inl, inr, ltb, true, false, Option, none,
  some, List, [], ◌∷◌, ◌++◌, All, Bytes, length, ok, Ensures, returns, Ensures-bind, Ensures-of,
  Ensures-cases, arith,
}
use traceroute.Response.{ResponseInfo, is_valid}
use traceroute.Response.Safety.{is_valid-IsDefined}
use traceroute.Probe.{failed_probe, success_probe}
use traceroute.Tracer.{Env, get_time_left, get_time_passed_till_now, min_time_wait_for_response}
use traceroute.Tracer.Origin.{IsExpired, passed}
use traceroute.Fast.{
  PacketToValidate, ProbeMap, push_result, find_valid, keep_before, Locked, record_success,
  accept_response, expire_loop, locked_section,
}

abbrev pub Refuses : ResponseInfo → Bytes → PacketToValidate → Type 0
Refuses info buffer p = is_valid p.packet info buffer ≡ ok false

-- The first packet that accepts a message, and the packets before and behind it; or none does.
abbrev IsFirst :
    ResponseInfo
    → Bytes
    → List PacketToValidate
    → Option (PacketToValidate × List PacketToValidate)
    → Type 0
IsFirst info buffer ps none = All (Refuses info buffer) ps
IsFirst info buffer ps (some (found, others)) =
    (front rest : List PacketToValidate) × (ps ≡ front ++ (found ∷ rest))
    × (others ≡ front ++ rest)
    × All (Refuses info buffer) front
    × (is_valid found.packet info buffer ≡ ok true)

keep_before-IsFirst :
    (info : ResponseInfo) (buffer : Bytes) (p : PacketToValidate) (ps : List PacketToValidate)
    (r : Option (PacketToValidate × List PacketToValidate))
    → Refuses info buffer p
    → IsFirst info buffer ps r
    → IsFirst info buffer (p ∷ ps) (keep_before p r)
unfolding keep_before
keep_before-IsFirst info buffer p ps none n h = (n, h)
keep_before-IsFirst info buffer p ps (some (found, others)) n (front, rest, e, f, g, v) =
    (p ∷ front, rest, ap (λ t. p ∷ t) e, ap (λ t. p ∷ t) f, (n, g), v)

find_valid-IsFirst :
    (info : ResponseInfo) (buffer : Bytes) (ps : List PacketToValidate)
    → 137 ≤ length buffer
    → Ensures (IsFirst info buffer ps) (find_valid info buffer ps)
unfolding find_valid
find_valid-IsFirst info buffer [] b = returns none tt
find_valid-IsFirst info buffer (p ∷ ps) b =
    Ensures-bind (Ensures-of (is_valid-IsDefined p.packet info buffer b) (λ v e. e)) λ valid v.
      Ensures-cases valid (λ y. returns _ ([], ps, refl, refl, tt, v ∙ ap ok y))
        (λ n.
          Ensures-bind (find_valid-IsFirst info buffer ps b)
            (λ r h. returns _ (keep_before-IsFirst info buffer p ps r (v ∙ ap ok n) h)))

-- Going through the packets in their order, with the clock read for each: those with less than 10
-- microseconds left are given up with the time that passed, the others stay.
pub data Expires (env : Env) (timeout : ℕ)
    : List PacketToValidate → ProbeMap → env.World → Locked env.World → Type 0 where
  done :
      {results : ProbeMap} {w : env.World}
      → Expires env timeout [] results w (record { packets = []; results = results; world = w })
  gives_up :
      {p : PacketToValidate} {ps : List PacketToValidate} {results : ProbeMap} {w : env.World}
      {s : Locked env.World}
      → IsExpired env timeout p.sent_at w
      → Expires env timeout ps
          (push_result p.ttl (failed_probe (passed env p.sent_at (env.now w).1)) results)
          (env.now (env.now w).1).1
          s
      → Expires env timeout (p ∷ ps) results w s
  stays :
      {p : PacketToValidate} {ps : List PacketToValidate} {results : ProbeMap} {w : env.World}
      {s : Locked env.World}
      → passed env p.sent_at w + 10 ≤ timeout
      → Expires env timeout ps results (env.now w).1 s
      → Expires env timeout
          (p ∷ ps)
          results
          w
          (record { packets = p ∷ s.packets; results = s.results; world = s.world })

-- A pass: the first packet that accepts the message, if there is one, gives its place to a result
-- with the time that passed and the sender; then packets are given up.
pub data IsPass (env : Env) (timeout : ℕ) (buffer : Bytes) (s s' : Locked env.World)
    : Option ResponseInfo → Type 0 where
  silence : Expires env timeout s.packets s.results s.world s' → IsPass env timeout buffer s s' none
  unclaimed :
      (info : ResponseInfo)
      → All (Refuses info buffer) s.packets
      → Expires env timeout s.packets s.results s.world s'
      → IsPass env timeout buffer s s' (some info)
  claimed :
      (info : ResponseInfo) (found : PacketToValidate) (front rest : List PacketToValidate)
      → s.packets ≡ front ++ (found ∷ rest)
      → All (Refuses info buffer) front
      → is_valid found.packet info buffer ≡ ok true
      → Expires env timeout
          (front ++ rest)
          (push_result found.ttl
            (success_probe (passed env found.sent_at s.world) info.client)
            s.results)
          (env.now s.world).1
          s'
      → IsPass env timeout buffer s s' (some info)

module _ (env : Env) (timeout : ℕ) where
  abbrev behind : List PacketToValidate → Locked env.World → Locked env.World
  behind kept s = record { packets = kept ++ s.packets; results = s.results; world = s.world }

  expire_loop-Expires :
      (kept ps : List PacketToValidate) (results : ProbeMap) (w : env.World)
      → (s : Locked env.World) × Expires env timeout ps results w s
        × (expire_loop env timeout kept ps results w ≡ behind kept s)
  unfolding expire_loop get_time_left get_time_passed_till_now
  expire_loop-Expires kept [] results w = (
    record { packets = []; results = results; world = w },
    Expires.done,
    ap (λ t. record { packets = t; results = results; world = w }) (sym (append-nil kept)),
  )
  expire_loop-Expires kept (p ∷ ps) results w =
      elim (Bool-cases (ltb (get_time_left env p.sent_at timeout w).0 min_time_wait_for_response)) [
        | inl y ↦
            let (s, h, e) =
              expire_loop-Expires kept ps
                (push_result p.ttl (failed_probe (passed env p.sent_at (env.now w).1)) results)
                (env.now (env.now w).1).1 in
            (s, Expires.gives_up (ground arith) h, rw (y, expire_loop) e)
        | inr n ↦
            let (s, h, e) = expire_loop-Expires (kept ++ (p ∷ [])) ps results (env.now w).1 in
            (
              record { packets = p ∷ s.packets; results = s.results; world = s.world },
              Expires.stays (ground arith) h,
              rw (n, expire_loop)
                  (e
                    ∙ ap (λ t. record { packets = t; results = s.results; world = s.world })
                        (append_assoc kept (p ∷ []) s.packets)),
            )
      ]

  expired_lem :
      (s : Locked env.World)
      → Expires env timeout s.packets s.results s.world
          (expire_loop env timeout [] s.packets s.results s.world)
  expired_lem s =
      let (s', h, e) = expire_loop-Expires [] s.packets s.results s.world in
      subst (Expires env timeout s.packets s.results s.world) (sym e) h

  found-IsPass :
      (info : ResponseInfo) (buffer : Bytes) (s : Locked env.World)
      (r : Option (PacketToValidate × List PacketToValidate))
      → IsFirst info buffer s.packets r
      → IsPass env timeout buffer s
          (let m = record_success env info.client s r in
            expire_loop env timeout [] m.packets m.results m.world)
          (some info)
  unfolding record_success get_time_passed_till_now
  found-IsPass info buffer s none h = IsPass.unclaimed info h (expired_lem s)
  found-IsPass info buffer s (some (found, others)) (front, rest, e, f, g, v) =
      IsPass.claimed info found front rest e g v (
        subst
          (λ t.
            Expires env timeout t
              (push_result found.ttl (success_probe (passed env found.sent_at s.world) info.client)
                s.results)
              (env.now s.world).1
              (expire_loop env timeout [] others
                (push_result found.ttl
                  (success_probe (passed env found.sent_at s.world) info.client) s.results)
                (env.now s.world).1))
          f
          (expired_lem (record {
            packets = others;
            results =
                push_result found.ttl (success_probe (passed env found.sent_at s.world) info.client)
                  s.results;
            world = (env.now s.world).1;
          })))

  -- For a buffer of at least 137 bytes a pass under the lock returns or throws, and what it
  -- returns is this. The first waiting packet that accepts the message is taken out, if there is
  -- one, and a success with the time since its sending and the message's sender is added to its
  -- hop. Then, in their order, the packets with less than 10 microseconds left are taken out, and
  -- a failure with the time since the sending is added to the hop of each; all others stay as
  -- they are.
  pub locked_section-IsPass :
      (resp : Option ResponseInfo) (buffer : Bytes) (s : Locked env.World)
      → 137 ≤ length buffer
      → Ensures
          (λ s'. IsPass env timeout buffer s s' resp)
          (locked_section env timeout resp buffer s)
  unfolding locked_section accept_response
  locked_section-IsPass none buffer s b = returns _ (IsPass.silence (expired_lem s))
  locked_section-IsPass (some info) buffer s b =
      Ensures-bind
        {P = λ (m : Locked env.World).
          IsPass env timeout buffer s (expire_loop env timeout [] m.packets m.results m.world)
            (some info)}
        (Ensures-bind (find_valid-IsFirst info buffer s.packets b)
          (λ r h. returns _ (found-IsPass info buffer s r h)))
        (λ m h. returns _ h)
