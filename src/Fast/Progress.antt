-- ===== src/Fast/Progress.antt =====
-- The next step of each thread, and how often the receiver goes round its loop.
use traceroute.Base.{
  List, ℕ, ◌+◌, ◌-◌, ◌*◌, ◌/◌, ◌≤◌, ◌<◌, ◌≡◌, refl, Bool-cases, inl, inr, ltb, if◌then◌else◌,
  length, Ensures, returns, Ensures-bind, Ensures-of, Ensures-map, Ensures-ok, IsDefined, subst,
  arith,
}
use traceroute.Address.{SocketAddress}
use traceroute.Tracer.{Env, IsEnv, buffer_size, get_time_left}
use traceroute.Fast.{
  PacketToValidate, get_current_size, ProbeMap, keeps_waiting, expected_size,
  expected_max_time_taken,
}
use traceroute.Fast.System.{
  Request, Receiver, starting, checking, receiving, got, left, System, send_packets_step,
  set_receiver, set_world, receive_step, sends, receives, start, Reach, begins, steps,
}
use traceroute.Fast.Clock.{locked_section-time}
use traceroute.Fast.SenderStep.{send_packets_step-IsSenderStep}

-- In nanoseconds, what the expected time and `beginAt` allow: it bounds the messages that the
-- loop awaits.
abbrev pub limit : Request → ℕ
limit q =
    (expected_max_time_taken q.timeout (expected_size q.ttl_begin q.ttl_end q.retries) + 1) * 1000

-- The messages that a step of the receiver awaits.
abbrev pub messages : Receiver → ℕ
messages (receiving b) = 1
messages (starting) = 0
messages (checking b) = 0
messages (got b resp) = 0
messages left = 0

module _ (env : Env) (q : Request) (old : List PacketToValidate) where
  -- The messages that the receiver has awaited on the way to a state.
  abbrev pub awaited : (s : System env.World) → Reach env q old s → ℕ
  awaited _ (begins buffer w b) = 0
  awaited _ (steps s s' r (sends _ _ e)) = awaited s r
  awaited _ (steps s s' r (receives _ _ e)) = awaited s r + messages s.receiver

module _ (env : Env) {target : SocketAddress} (laws : IsEnv env target) (q : Request)
    (old : List PacketToValidate) where
  open laws use {
    time, now_reads, create_defined, create_lem, sending_defined, sending_lem, receiving_defined,
    receiving_lem,
  }

  abbrev IsTimed : Receiver → ℕ → env.World → Type 0
  IsTimed starting n w = n ≡ 0
  IsTimed (checking b) n w = (b + n ≤ time w) × (n ≤ limit q)
  IsTimed (receiving b) n w = (b + n ≤ time w) × (n < limit q)
  IsTimed (got b resp) n w = (b + n ≤ time w) × (n ≤ limit q)
  IsTimed left n w = n ≤ limit q

  IsTimed-later :
      (r : Receiver) (n : ℕ) (w w' : env.World) → time w ≤ time w' → IsTimed r n w → IsTimed r n w'
  IsTimed-later starting n w w' l h = h
  IsTimed-later (checking b) n w w' l (h, k) = (omega arith, k)
  IsTimed-later (receiving b) n w w' l (h, k) = (omega arith, k)
  IsTimed-later (got b resp) n w w' l (h, k) = (omega arith, k)
  IsTimed-later left n w w' l h = h

  time_left_cases :
      (b max_time n : ℕ) (w : env.World)
      → (b + n ≤ time w) × (n ≤ (max_time + 1) * 1000)
      → (max_time + 1) * 1000 ≡ limit q
      → IsTimed
          (if ltb 0 (get_time_left env b max_time w).0 then receiving b else left)
          n
          (get_time_left env b max_time w).1
  unfolding get_time_left
  time_left_cases b max_time n w (h, k) e =
      elim (Bool-cases (ltb 0 (get_time_left env b max_time w).0)) [
        | inl y ↦
            let passed : ((env.now w).0 - b) / 1000 < max_time = ground arith in
            let few : n < (max_time + 1) * 1000 = omega (arith, now_reads w) in
            rw y (omega (arith, now_reads w), subst (λ m. n < m) e few)
        | inr m ↦ rw m (omega arith)
      ]

  keeps_waiting-IsTimed :
      (b size n : ℕ) (results : ProbeMap) (w : env.World)
      → size ≡ expected_size q.ttl_begin q.ttl_end q.retries
      → (b + n ≤ time w) × (n ≤ limit q)
      → IsTimed
          (if (keeps_waiting env b size q.timeout results w).0 then receiving b else left)
          n
          (keeps_waiting env b size q.timeout results w).1
  unfolding keeps_waiting get_time_left
  keeps_waiting-IsTimed b size n results w z (h, k) =
      elim (Bool-cases (ltb (get_current_size results) size)) [
        | inl y ↦ rw y (
            time_left_cases b (expected_max_time_taken q.timeout size) n w (h, rw z (omega arith))
              (rw z refl))
        | inr m ↦ rw m k
      ]

  receive_step-IsTimed :
      (r : Receiver) (s : System env.World) (n : ℕ)
      → s.receiver ≡ r
      → length s.buffer ≡ buffer_size
      → IsTimed r n s.locked.world
      → Ensures
          (λ s'.
            IsTimed s'.receiver (n + messages r) s'.locked.world × (length s'.buffer ≡ buffer_size))
          (receive_step env q r s)
  unfolding receive_step set_receiver set_world
  receive_step-IsTimed starting s n c b h =
      returns _ ((omega (arith, now_reads s.locked.world), omega arith), b)
  receive_step-IsTimed (checking t) s n c b h =
      let k =
        keeps_waiting-IsTimed t (expected_size q.ttl_begin q.ttl_end q.retries) n s.locked.results
          s.locked.world refl h in
      returns _ (
        subst
            (λ m.
              IsTimed
                (if (keeps_waiting env t (expected_size q.ttl_begin q.ttl_end q.retries) q.timeout
                    s.locked.results s.locked.world).0
                  then receiving t
                  else left)
                m
                (keeps_waiting env t (expected_size q.ttl_begin q.ttl_end q.retries) q.timeout
                  s.locked.results s.locked.world).1)
            (omega arith) k,
        b,
      )
  receive_step-IsTimed (receiving t) s n c b (h, k) =
      Ensures-bind
        (Ensures-of (receiving_defined s.buffer (q.timeout / 1000) s.locked.world)
          (λ a e. receiving_lem s.buffer a.1 (q.timeout / 1000) s.locked.world a.2 a.0 e))
        (λ a l. returns _ ((omega arith, omega arith), omega arith))
  receive_step-IsTimed (got t resp) s n c b (h, k) =
      Ensures-bind (locked_section-time env laws q.timeout resp s.buffer s.locked (omega arith))
        (λ l m. returns _ ((omega arith, omega arith), b))
  receive_step-IsTimed left s n c b h = returns _ (rw c (omega arith), b)

  Reach-IsTimed :
      (s : System env.World) (r : Reach env q old s)
      → IsTimed s.receiver (awaited env q old s r) s.locked.world × (length s.buffer ≡ buffer_size)
  unfolding start
  Reach-IsTimed _ (begins buffer w b) = (refl, b)
  Reach-IsTimed _ (steps s s' r (sends _ _ e)) =
      let (h, b) = Reach-IsTimed s r in
      let (c, d, _, l) =
        Ensures-ok (send_packets_step-IsSenderStep env laws q s.sender.stage s) e in
      (
        rw c (IsTimed-later s.receiver (awaited env q old s r) s.locked.world s'.locked.world l h),
        rw d b,
      )
  Reach-IsTimed _ (steps s s' r (receives _ _ e)) =
      let (h, b) = Reach-IsTimed s r in
      Ensures-ok (receive_step-IsTimed s.receiver s (awaited env q old s r) refl b h) e

  IsTimed-limit : (r : Receiver) (n : ℕ) (w : env.World) → IsTimed r n w → n ≤ limit q
  IsTimed-limit starting n w h = omega arith
  IsTimed-limit (checking b) n w (h, k) = k
  IsTimed-limit (receiving b) n w (h, k) = omega arith
  IsTimed-limit (got b resp) n w (h, k) = k
  IsTimed-limit left n w h = h

  -- If factory, network and clock keep `IsEnv`: in every state that the threads reach, whatever
  -- packets earlier calls left, the next step of each is defined (it returns or throws, and reads
  -- only inside the buffer), and the receiver has awaited at most `limit q` messages.
  pub Reach-progress :
      (s : System env.World) (r : Reach env q old s)
      → IsDefined (receive_step env q s.receiver s)
        × IsDefined (send_packets_step env q s.sender.stage s)
        × (awaited env q old s r ≤ limit q)
  Reach-progress s r =
      let (h, b) = Reach-IsTimed s r in
      (
        Ensures-map (receive_step-IsTimed s.receiver s (awaited env q old s r) refl b h)
            (λ _ _. tt),
        Ensures-map (send_packets_step-IsSenderStep env laws q s.sender.stage s) (λ _ _. tt),
        IsTimed-limit s.receiver (awaited env q old s r) s.locked.world h,
      )
