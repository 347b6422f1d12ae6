-- ===== src/Fast/Turns.antt =====
-- How many steps the two threads can make.
use native.Mathlib.Nat.{mul-le-mul_right}
use traceroute.Base.{
  List, ℕ, suc, ◌+◌, ◌-◌, ◌*◌, ◌%◌, ◌^◌, ◌≤◌, ◌<◌, ◌≡◌, Bool-cases, inl, inr, leb, ltb, leb→le, ok,
  throw, send_failed, ◌>>=◌, first_call, ok-injective, subst, arith,
}
use traceroute.Packet.{Packet}
use traceroute.Tracer.{Env}
use traceroute.Fast.{PacketToValidate}
use traceroute.Fast.System.{
  Request, Stage, choosing, created, sent, ended, failed, Sender, Receiver, starting, checking,
  receiving, got, left, System, catch_failure, set_stage, create, send, choose, sends, receives,
  Reach, begins, steps,
}
use traceroute.Fast.Position.{IsRequest, IsInside, IsPosition}
use traceroute.Fast.Sending.{caught}
use traceroute.Fast.Progress.{limit}

-- A thread that has ended or failed makes no more steps.
abbrev pub sender_turn : Stage → ℕ
sender_turn choosing = 1
sender_turn (created packet) = 1
sender_turn (sent packet) = 1
sender_turn ended = 0
sender_turn failed = 0

abbrev pub receiver_turn : Receiver → ℕ
receiver_turn starting = 1
receiver_turn (checking b) = 1
receiver_turn (receiving b) = 1
receiver_turn (got b resp) = 1
receiver_turn left = 0

module _ (env : Env) (q : Request) (old : List PacketToValidate) where
  -- The steps of each thread on the way to a state.
  abbrev pub sender_turns : (s : System env.World) → Reach env q old s → ℕ
  sender_turns _ (begins buffer w b) = 0
  sender_turns _ (steps s s' r (sends _ _ e)) = sender_turns s r + sender_turn s.sender.stage
  sender_turns _ (steps s s' r (receives _ _ e)) = sender_turns s r

  abbrev pub receiver_turns : (s : System env.World) → Reach env q old s → ℕ
  receiver_turns _ (begins buffer w b) = 0
  receiver_turns _ (steps s s' r (sends _ _ e)) = receiver_turns s r
  receiver_turns _ (steps s s' r (receives _ _ e)) = receiver_turns s r + receiver_turn s.receiver

-- Of a hop: three steps for each packet, and one to the next hop.
abbrev pub hop_turns : Request → ℕ
hop_turns q = 3 * q.retries + 1

abbrev pub sender_limit : Request → ℕ
sender_limit q = (suc q.ttl_end - q.ttl_begin) * hop_turns q + 1

abbrev pub receiver_limit : Request → ℕ
receiver_limit q = 3 * limit q + 2

-- The steps of the sender on the way to a place, and of the receiver that has awaited `n`
-- messages.
abbrev pub sent_by_now : Request → ℕ → ℕ → Stage → ℕ
sent_by_now q ttl i choosing = (ttl - q.ttl_begin) * hop_turns q + 3 * i
sent_by_now q ttl i (created packet) = (ttl - q.ttl_begin) * hop_turns q + 3 * i + 1
sent_by_now q ttl i (sent packet) = (ttl - q.ttl_begin) * hop_turns q + 3 * i + 2
sent_by_now q ttl i ended = (ttl - q.ttl_begin) * hop_turns q + 3 * i + 1
sent_by_now q ttl i failed = (ttl - q.ttl_begin) * hop_turns q + 3 * i + 2

abbrev pub sent_by_sender : Request → Sender → ℕ
sent_by_sender q s = sent_by_now q s.ttl s.i s.stage

abbrev pub heard_by_now : ℕ → Receiver → ℕ
heard_by_now n starting = 3 * n
heard_by_now n (checking b) = 3 * n + 1
heard_by_now n (receiving b) = 3 * n + 2
heard_by_now n (got b resp) = 3 * n
heard_by_now n left = 3 * n + 2

pub next_hop_turns :
    (q : Request) (ttl : ℕ)
    → q.ttl_begin ≤ ttl
    → (suc ttl - q.ttl_begin) * hop_turns q ≡ (ttl - q.ttl_begin) * hop_turns q + hop_turns q
next_hop_turns q ttl l =
    let e : suc ttl - q.ttl_begin ≡ suc (ttl - q.ttl_begin) = omega arith in rw e (grind arith)

pub last_hop_turns :
    (q : Request) (ttl : ℕ)
    → q.ttl_begin ≤ ttl
    → ttl ≤ q.ttl_end
    → (ttl - q.ttl_begin) * hop_turns q + hop_turns q ≤ (suc q.ttl_end - q.ttl_begin) * hop_turns q
last_hop_turns q ttl l u = omega (
  arith,
  next_hop_turns q ttl l,
  mul-le-mul_right {m = suc ttl - q.ttl_begin} {n = suc q.ttl_end - q.ttl_begin} (hop_turns q)
      (omega arith),
)

pub sent_by_now-le :
    (q : Request) (ttl i : ℕ) (stage : Stage)
    → q.ttl_begin ≤ ttl
    → ttl ≤ suc q.ttl_end
    → IsInside q ttl i stage
    → sent_by_now q ttl i stage ≤ sender_limit q
sent_by_now-le q ttl i choosing l u (c, z) = elim (Bool-cases (leb ttl q.ttl_end)) [
  | inl y ↦ omega (arith, last_hop_turns q ttl l (leb→le ttl q.ttl_end y))
  | inr n ↦ let t : ttl ≡ suc q.ttl_end = ground arith in let e = z t in rw (t, e) (omega arith)
]
sent_by_now-le q ttl i (created packet) l u (t, c) = omega (arith, last_hop_turns q ttl l t)
sent_by_now-le q ttl i (sent packet) l u (t, c) = omega (arith, last_hop_turns q ttl l t)
sent_by_now-le q ttl i ended l u (t, z) = rw (t, z) (omega arith)
sent_by_now-le q ttl i failed l u (t, c) = omega (arith, last_hop_turns q ttl l t)

pub heard_by_now-le :
    (q : Request) (n : ℕ) (r : Receiver) → n ≤ limit q → heard_by_now n r ≤ receiver_limit q
heard_by_now-le q n starting h = omega arith
heard_by_now-le q n (checking b) h = omega arith
heard_by_now-le q n (receiving b) h = omega arith
heard_by_now-le q n (got b resp) h = omega arith
heard_by_now-le q n left h = omega arith

module _ (env : Env) (q : Request) where
  create-turns :
      (ttl i : ℕ) (w : env.World) (r : Stage × env.World)
      → create env q w ≡ ok r
      → suc (sent_by_now q ttl i choosing) ≤ sent_by_now q ttl i r.0
  unfolding create
  create-turns ttl i w r e =
      let ((packet, w'), _, k) = first_call (env.create_packet w) e in
      subst
        (λ (x : Stage × env.World). suc (sent_by_now q ttl i choosing) ≤ sent_by_now q ttl i x.0)
        (ok-injective _ _ k) (omega arith)

  pub send-turns :
      (ttl i : ℕ) (packet : Packet) (w : env.World) (r : Stage × env.World)
      → send env q ttl packet w ≡ ok r
      → suc (sent_by_now q ttl i (created packet)) ≤ sent_by_now q ttl i r.0
  unfolding send
  send-turns ttl i packet w r e =
      let ((success, w'), _, k) = first_call (env.try_sending packet ttl 5000 w) e in
      elim (Bool-cases success) [
        | inl y ↦
            let k' : ok (sent packet, w') ≡ ok r = rw y at k in
            subst
              (λ (x : Stage × env.World).
                suc (sent_by_now q ttl i (created packet)) ≤ sent_by_now q ttl i x.0)
              (ok-injective _ _ k') (omega arith)
        | inr n ↦ let k' : throw send_failed ≡ ok r = rw n at k in cc
      ]

  abbrev pub More : System env.World → Stage → System env.World → Type 0
  More s stage s' = suc (sent_by_now q s.sender.ttl s.sender.i stage) ≤ sent_by_sender q s'.sender

  pub choose-turns :
      (g : IsRequest q) (s s' : System env.World)
      → IsPosition q s.sender
      → (s.sender.i ≤ q.retries) × (s.sender.ttl ≡ suc q.ttl_end → s.sender.i ≡ 0)
      → choose env q s ≡ ok s'
      → More s choosing s'
  unfolding choose set_stage
  choose-turns g s s' (l, b, _) (c, z) e = elim (Bool-cases (leb s.sender.ttl q.ttl_end)) [
    | inl y ↦
        let u = leb→le s.sender.ttl q.ttl_end y in
        elim (Bool-cases (ltb s.sender.i q.retries)) [
          | inl y' ↦
              let k : (catch_failure (create env q s.locked.world) s.locked.world
                    >>= (λ r. ok (set_stage s r)))
                  ≡ ok s' =
                rw (y, y') at e in
              let (r, f, j) =
                first_call (catch_failure (create env q s.locked.world) s.locked.world) k in
              subst (More s choosing) (ok-injective _ _ j) (
                caught
                  (λ st.
                    suc (sent_by_now q s.sender.ttl s.sender.i choosing)
                    ≤ sent_by_now q s.sender.ttl s.sender.i st)
                  (create env q s.locked.world) s.locked.world r f (omega arith)
                  (λ x d. create-turns s.sender.ttl s.sender.i s.locked.world x d))
          | inr n' ↦
              let k : ok (record {
                sender = record { ttl = (s.sender.ttl + 1) % 2 ^ 32; i = 0; stage = choosing };
                receiver = s.receiver;
                buffer = s.buffer;
                locked = s.locked;
              })
                  ≡ ok s' =
                rw (y, n') at e in
              let small : suc q.ttl_end < 2 ^ 32 = g.end_small in
              let w : (s.sender.ttl + 1) % 2 ^ 32 ≡ suc s.sender.ttl = omega arith in
              let i : s.sender.i ≡ q.retries = ground arith in
              subst (More s choosing) (ok-injective _ _ k)
                (rw w (omega (arith, next_hop_turns q s.sender.ttl l)))
        ]
    | inr n ↦
        let k : ok (set_stage s (ended, s.locked.world)) ≡ ok s' = rw n at e in
        subst (More s choosing) (ok-injective _ _ k) (omega arith)
  ]
