-- ===== src/Fast/Attribution.antt =====
-- Where the results come from: the steps of the sending thread, and all states.
use traceroute.Base.{
  All, List, ℕ, ◌+◌, ◌≡◌, refl, ◌∙◌, ap, Bool-cases, inl, inr, leb, ltb, ◌>>=◌, ◌%◌, ◌^◌,
  All-append, Bytes, ok, throw, send_failed, first_call, ok-injective, subst,
}
use traceroute.Address.{SocketAddress}
use traceroute.Packet.{Packet}
use traceroute.Tracer.{Env, IsEnv}
use traceroute.Fast.{PacketToValidate}
use traceroute.Tracer.Origin.{IsAimed}
use traceroute.Fast.Origin.{IsWaiting}
use traceroute.Fast.System.{
  Request, Stage, choosing, created, sent, ended, failed, System, catch_failure, set_stage, create,
  send, push_packet, choose, send_packets_step, sends, receives, start, Reach, begins, steps,
}
use traceroute.Fast.Sending.{caught}
use traceroute.Fast.Heard.{IsUnderWay, IsAttributed, receive_step-IsAttributed}

module _ (env : Env) (q : Request) {target : SocketAddress} (laws : IsEnv env target) where
  set_stage-IsAttributed :
      (s : System env.World) (stage : Stage) (w : env.World)
      → IsAttributed env target q.timeout s
      → IsUnderWay env target s.sender.ttl stage
      → IsAttributed env target q.timeout (set_stage s (stage, w))
  unfolding set_stage
  set_stage-IsAttributed s stage w h u = record { under_way = u; heard = h.heard; told = h.told }

  create-IsUnderWay :
      (ttl : ℕ) (w : env.World) (r : Stage × env.World)
      → create env q w ≡ ok r
      → IsUnderWay env target ttl r.0
  unfolding create
  create-IsUnderWay ttl w r e =
      let ((packet, w'), c, k) = first_call (env.create_packet w) e in
      subst (λ (x : Stage × env.World). IsUnderWay env target ttl x.0) (ok-injective _ _ k)
        ((laws.create_lem w w' packet c).0, (w, w', c))

  send-IsUnderWay :
      (ttl : ℕ) (packet : Packet) (w : env.World) (r : Stage × env.World)
      → IsAimed env target packet
      → send env q ttl packet w ≡ ok r
      → IsUnderWay env target ttl r.0
  unfolding send
  send-IsUnderWay ttl packet w r d e =
      let ((success, w'), c, k) = first_call (env.try_sending packet ttl 5000 w) e in
      elim (Bool-cases success) [
        | inl y ↦
            let k' : ok (sent packet, w') ≡ ok r = rw y at k in
            subst (λ (x : Stage × env.World). IsUnderWay env target ttl x.0) (ok-injective _ _ k')
              (d, (w, w', c ∙ ap (λ b. ok (b, w')) y))
        | inr n ↦ let k' : throw send_failed ≡ ok r = rw n at k in cc
      ]

  choose-IsAttributed :
      (s s' : System env.World)
      → IsAttributed env target q.timeout s
      → choose env q s ≡ ok s'
      → IsAttributed env target q.timeout s'
  unfolding choose
  choose-IsAttributed s s' h e = elim (Bool-cases (leb s.sender.ttl q.ttl_end)) [
    | inl y ↦ elim (Bool-cases (ltb s.sender.i q.retries)) [
      | inl y' ↦
          let k : (catch_failure (create env q s.locked.world) s.locked.world
                >>= (λ r. ok (set_stage s r)))
              ≡ ok s' =
            rw (y, y') at e in
          let (r, f, j) =
            first_call (catch_failure (create env q s.locked.world) s.locked.world) k in
          subst (IsAttributed env target q.timeout) (ok-injective _ _ j) (
            set_stage-IsAttributed s r.0 r.1 h (
              caught (IsUnderWay env target s.sender.ttl) (create env q s.locked.world)
                s.locked.world r f tt (λ x d. create-IsUnderWay s.sender.ttl s.locked.world x d)))
      | inr n' ↦
          let k : ok (record {
            sender = record { ttl = (s.sender.ttl + 1) % 2 ^ 32; i = 0; stage = choosing };
            receiver = s.receiver;
            buffer = s.buffer;
            locked = s.locked;
          })
              ≡ ok s' =
            rw (y, n') at e in
          subst (IsAttributed env target q.timeout) (ok-injective _ _ k)
            (record { under_way = tt; heard = h.heard; told = h.told })
    ]
    | inr n ↦
        let k : ok (set_stage s (ended, s.locked.world)) ≡ ok s' = rw n at e in
        subst (IsAttributed env target q.timeout) (ok-injective _ _ k)
          (set_stage-IsAttributed s ended s.locked.world h tt)
  ]

  push_packet-IsAttributed :
      (packet : Packet) (s : System env.World)
      → IsAttributed env target q.timeout s
      → IsUnderWay env target s.sender.ttl (sent packet)
      → IsAttributed env target q.timeout (push_packet env q packet s)
  unfolding push_packet
  push_packet-IsAttributed packet s h u = record {
    under_way = tt;
    heard = h.heard;
    told = (
      All-append _ s.locked.packets _ h.told.0 ((u.0, u.1, (s.locked.world, refl)), tt),
      h.told.1,
    );
  }

  pub send_packets_step-IsAttributed :
      (stage : Stage) (s s' : System env.World)
      → s.sender.stage ≡ stage
      → IsAttributed env target q.timeout s
      → send_packets_step env q stage s ≡ ok s'
      → IsAttributed env target q.timeout s'
  unfolding send_packets_step
  send_packets_step-IsAttributed choosing s s' c h e = choose-IsAttributed s s' h e
  send_packets_step-IsAttributed (created packet) s s' c h e =
      let d : IsAimed env target packet =
        subst (IsUnderWay env target s.sender.ttl) c h.under_way in
      let (r, f, j) =
        first_call (catch_failure (send env q s.sender.ttl packet s.locked.world) s.locked.world)
          e in
      subst (IsAttributed env target q.timeout) (ok-injective _ _ j) (
        set_stage-IsAttributed s r.0 r.1 h (
          caught (IsUnderWay env target s.sender.ttl)
            (send env q s.sender.ttl packet s.locked.world) s.locked.world r f tt
            (λ x k. send-IsUnderWay s.sender.ttl packet s.locked.world x d k)))
  send_packets_step-IsAttributed (sent packet) s s' c h e =
      subst (IsAttributed env target q.timeout) (ok-injective _ _ e) (
        push_packet-IsAttributed packet s h
          (subst (IsUnderWay env target s.sender.ttl) c h.under_way))
  send_packets_step-IsAttributed ended s s' c h e =
      subst (IsAttributed env target q.timeout) (ok-injective _ _ e) h
  send_packets_step-IsAttributed failed s s' c h e =
      subst (IsAttributed env target q.timeout) (ok-injective _ _ e) h

  start-IsAttributed :
      (old : List PacketToValidate) (buffer : Bytes) (w : env.World)
      → All (IsWaiting env target) old
      → IsAttributed env target q.timeout (start env q old buffer w)
  unfolding start
  start-IsAttributed old buffer w o = record { under_way = tt; heard = tt; told = (o, tt) }

  -- If factory, network and clock keep `IsEnv`: in every state that the two threads reach, in
  -- whatever order they run, if the packets that earlier calls left were made by the factory for
  -- the target and sent with the time to live of their hops, and the clock was read for each: a
  -- packet that waits was made and sent so too, and a result of a hop is either that of a probe
  -- that was given up, or the answer to a packet that the factory made for the target and that
  -- was sent with the hop's time to live: it reports the sender of a message that came from the
  -- network and that this packet accepts. Given up means that a packet that the factory made for
  -- the target was sent with the hop's time to live, that between two readings of the clock, the
  -- first of which counts as the time of the sending, more than the timeout less 10 microseconds
  -- passed, and that the result reports a failure after more than that time.
  pub Reach-IsAttributed :
      (old : List PacketToValidate) (s : System env.World)
      → All (IsWaiting env target) old
      → Reach env q old s
      → IsAttributed env target q.timeout s
  Reach-IsAttributed old s o (begins buffer w _) = start-IsAttributed old buffer w o
  Reach-IsAttributed old s o (steps _ _ r (sends s₀ _ e)) =
      send_packets_step-IsAttributed s₀.sender.stage s₀ s refl (Reach-IsAttributed old s₀ o r) e
  Reach-IsAttributed old s o (steps _ _ r (receives s₀ _ e)) =
      receive_step-IsAttributed env q laws s₀.receiver s₀ s refl (Reach-IsAttributed old s₀ o r) e
