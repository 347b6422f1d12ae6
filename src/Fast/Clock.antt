-- ===== src/Fast/Clock.antt =====
-- The section under the lock against the clock.
use traceroute.Base.{
  ℕ, ◌≤◌, Bool-cases, inl, inr, ltb, Option, none, some, List, [], ◌∷◌, ◌++◌, length, Bytes,
  Ensures, returns, Ensures-bind, Ensures-if, IsDefined, arith,
}
use traceroute.Address.{SocketAddress}
use traceroute.Response.{ResponseInfo}
use traceroute.Response.Safety.{is_valid-IsDefined}
use traceroute.Tracer.{
  Env, IsEnv, get_time_left, get_time_passed_till_now, min_time_wait_for_response,
}
use traceroute.Probe.{failed_probe}
use traceroute.Fast.{
  push_result, PacketToValidate, ProbeMap, Locked, find_valid, record_success, accept_response,
  expire_loop, locked_section,
}

find_valid-IsDefined :
    (info : ResponseInfo) (buffer : Bytes) (ps : List PacketToValidate)
    → 137 ≤ length buffer
    → IsDefined (find_valid info buffer ps)
unfolding find_valid
find_valid-IsDefined info buffer [] h = returns _ tt
find_valid-IsDefined info buffer (p ∷ ps) h =
    Ensures-bind (is_valid-IsDefined p.packet info buffer h) λ valid _.
      Ensures-if valid (returns _ tt)
        (Ensures-bind (find_valid-IsDefined info buffer ps h) (λ r _. returns _ tt))

module _ (env : Env) {target : SocketAddress} (laws : IsEnv env target) where
  open laws use {
    time, now_reads, create_defined, create_lem, sending_defined, sending_lem, receiving_defined,
    receiving_lem,
  }

  pub get_time_left-time :
      (t timeout : ℕ) (w : env.World) → time w ≤ time (get_time_left env t timeout w).1
  unfolding get_time_left
  get_time_left-time t timeout w = omega (arith, now_reads w)

  pub get_time_passed-time :
      (t : ℕ) (w : env.World) → time w ≤ time (get_time_passed_till_now env t w).1
  unfolding get_time_passed_till_now
  get_time_passed-time t w = omega (arith, now_reads w)

  record_success-time :
      (client : SocketAddress) (s : Locked env.World)
      (r : Option (PacketToValidate × List PacketToValidate))
      → time s.world ≤ time (record_success env client s r).world
  unfolding record_success
  record_success-time client s none = omega arith
  record_success-time client s (some (found, others)) = get_time_passed-time found.sent_at s.world

  expire_loop-time :
      (timeout : ℕ) (kept ps : List PacketToValidate) (results : ProbeMap) (w : env.World)
      → time w ≤ time (expire_loop env timeout kept ps results w).world
  unfolding expire_loop
  expire_loop-time timeout kept [] results w = omega arith
  expire_loop-time timeout kept (p ∷ ps) results w =
      let w₁ = (get_time_left env p.sent_at timeout w).1 in
      let l = get_time_left-time p.sent_at timeout w in
      elim (Bool-cases (ltb (get_time_left env p.sent_at timeout w).0 min_time_wait_for_response)) [
        | inl y ↦
            rw (y, expire_loop)
              (omega (
                arith,
                l,
                get_time_passed-time p.sent_at w₁,
                expire_loop-time timeout kept ps
                    (push_result p.ttl (failed_probe (get_time_passed_till_now env p.sent_at w₁).0)
                      results)
                    (get_time_passed_till_now env p.sent_at w₁).1,
              ))
        | inr n ↦
            rw (n, expire_loop)
              (omega (arith, l, expire_loop-time timeout (kept ++ (p ∷ [])) ps results w₁))
      ]

  accept_response-time :
      (resp : Option ResponseInfo) (buffer : Bytes) (s : Locked env.World)
      → 137 ≤ length buffer
      → Ensures (λ s'. time s.world ≤ time s'.world) (accept_response env resp buffer s)
  unfolding accept_response
  accept_response-time none buffer s h = returns _ (omega arith)
  accept_response-time (some info) buffer s h =
      Ensures-bind (find_valid-IsDefined info buffer s.packets h)
        (λ found _. returns _ (record_success-time info.client s found))

  pub locked_section-time :
      (timeout : ℕ) (resp : Option ResponseInfo) (buffer : Bytes) (s : Locked env.World)
      → 137 ≤ length buffer
      → Ensures (λ s'. time s.world ≤ time s'.world) (locked_section env timeout resp buffer s)
  unfolding locked_section
  locked_section-time timeout resp buffer s h =
      Ensures-bind (accept_response-time resp buffer s h) (λ m l.
        returns _ (omega (arith, l, expire_loop-time timeout [] m.packets m.results m.world)))
