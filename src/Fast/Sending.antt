-- ===== src/Fast/Sending.antt =====
-- The steps of the sending thread against the invariant.
use traceroute.Base.{
  List, ap, ◌+◌, length, ℕ, suc, ◌≤◌, ◌<◌, leb→le, ◌>>=◌, ◌%◌, ◌^◌, ◌≡◌, refl, ◌∙◌, Bool-cases, inl,
  inr, ltb, leb, [], ◌∷◌, length-append, Outcome, ok, throw, undefined, send_failed, out_of_fuel,
  first_call, ok-injective, subst, arith,
}
use traceroute.Packet.{Packet}
use traceroute.Tracer.{Env}
use traceroute.Fast.{PacketToValidate}
use traceroute.Fast.System.{
  Request, Stage, choosing, created, sent, ended, failed, System, catch_failure, set_stage, create,
  send, push_packet, choose, send_packets_step,
}
use traceroute.Fast.Conserve.{packets_at, packets_at-append}
use traceroute.Fast.Position.{IsRequest, IsInside, IsInvariant, pushed_at-next, pushed-next}

-- A stage after a call that may throw.
pub caught :
    {W : Type 0} (P : Stage → Type 0) (m : Outcome (Stage × W)) (w : W) (r : Stage × W)
    → catch_failure m w ≡ ok r
    → P failed
    → ((x : Stage × W) → m ≡ ok x → P x.0)
    → P r.0
unfolding catch_failure
caught P (ok x) w r e f k = k r e
caught {W} P (throw x) w r e f k = subst (λ (y : Stage × W). P y.0) (ok-injective _ _ e) f
caught P undefined w r e f k = cc
caught P out_of_fuel w r e f k = cc

module _ (env : Env) (q : Request) (g : IsRequest q) (old : List PacketToValidate) where
  set_stage-IsInvariant :
      (s : System env.World) (stage : Stage) (w : env.World)
      → IsInvariant q old s
      → IsInside q s.sender.ttl s.sender.i stage
      → IsInvariant q old (set_stage s (stage, w))
  unfolding set_stage
  set_stage-IsInvariant s stage w h inside =
      let (l, u, _) = h.position in
      record { position = (l, u, inside); flow = h.flow; keyed = h.keyed }

  create-stage :
      (w : env.World) (r : Stage × env.World) (ttl i : ℕ)
      → create env q w ≡ ok r
      → ttl ≤ q.ttl_end
      → i < q.retries
      → IsInside q ttl i r.0
  unfolding create
  create-stage w r ttl i e u v =
      let ((packet, w'), _, k) = first_call (env.create_packet w) e in
      subst (λ (x : Stage × env.World). IsInside q ttl i x.0) (ok-injective _ _ k) (u, v)

  send-stage :
      (packet : Packet) (w : env.World) (r : Stage × env.World) (ttl i : ℕ)
      → send env q ttl packet w ≡ ok r
      → ttl ≤ q.ttl_end
      → i < q.retries
      → IsInside q ttl i r.0
  unfolding send
  send-stage packet w r ttl i e u v =
      let ((success, w'), _, k) = first_call (env.try_sending packet ttl 5000 w) e in
      elim (Bool-cases success) [
        | inl y ↦
            let k' : ok (sent packet, w') ≡ ok r = rw y at k in
            subst (λ (x : Stage × env.World). IsInside q ttl i x.0) (ok-injective _ _ k') (u, v)
        | inr n ↦ let k' : throw send_failed ≡ ok r = rw n at k in cc
      ]

  next_hop-IsInvariant :
      (s : System env.World)
      → IsInvariant q old s
      → s.sender.ttl ≤ q.ttl_end
      → s.sender.i ≡ q.retries
      → IsInvariant q old (record {
        sender = record { ttl = (s.sender.ttl + 1) % 2 ^ 32; i = 0; stage = choosing };
        receiver = s.receiver;
        buffer = s.buffer;
        locked = s.locked;
      })
  next_hop-IsInvariant s h u i =
      let (l, _, _) = h.position in
      let (f, n) = h.flow in
      let small : suc q.ttl_end < 2 ^ 32 = g.end_small in
      let e : (s.sender.ttl + 1) % 2 ^ 32 ≡ suc s.sender.ttl = omega arith in
      rw e (record {
        position = (omega arith, omega arith, (omega arith, λ _. refl));
        flow = (
          λ t. f t ∙ ap (λ m. m + packets_at t old) (pushed_at-next q s.sender t l i),
          n ∙ ap (λ m. m + length old) (pushed-next q s.sender l i),
        );
        keyed = h.keyed;
      })

  push_packet-IsInvariant :
      (packet : Packet) (s : System env.World)
      → IsInvariant q old s
      → s.sender.ttl ≤ q.ttl_end
      → s.sender.i < q.retries
      → IsInvariant q old (push_packet env q packet s)
  unfolding push_packet
  push_packet-IsInvariant packet s h u i =
      let (l, _, _) = h.position in
      let (f, n) = h.flow in
      let small : q.retries < 2 ^ 32 = g.retries_small in
      let e : (s.sender.i + 1) % 2 ^ 32 ≡ suc s.sender.i = omega arith in
      let new : PacketToValidate = record {
        packet = packet;
        sent_at = (env.now s.locked.world).0;
        ttl = s.sender.ttl;
        retry = s.sender.i;
      } in
      rw e (record {
        position = (l, omega arith, (i, λ x. omega (arith, x)));
        flow = (
          λ t. ground (arith, f t, packets_at-append t s.locked.packets (new ∷ [])),
          omega (arith, n, length-append s.locked.packets (new ∷ [])),
        );
        keyed = h.keyed;
      })

  choose-IsInvariant :
      (s s' : System env.World)
      → IsInvariant q old s
      → (s.sender.i ≤ q.retries) × (s.sender.ttl ≡ suc q.ttl_end → s.sender.i ≡ 0)
      → choose env q s ≡ ok s'
      → IsInvariant q old s'
  unfolding choose
  choose-IsInvariant s s' h (c, z) e = elim (Bool-cases (leb s.sender.ttl q.ttl_end)) [
    | inl y ↦
        let u = leb→le s.sender.ttl q.ttl_end y in
        elim (Bool-cases (ltb s.sender.i q.retries)) [
          | inl y' ↦
              let k : (catch_failure (create env q s.locked.world) s.locked.world
                    >>= (λ r. ok (set_stage s r)))
                  ≡ ok s' =
                rw (y, y') at e in
              let (r, f, j) =
                first_call (catch_failure (create env q s.locked.world) s.locked.world) k in
              subst (IsInvariant q old) (ok-injective _ _ j) (
                set_stage-IsInvariant s r.0 r.1 h (
                  caught (IsInside q s.sender.ttl s.sender.i) (create env q s.locked.world)
                    s.locked.world r f (u, ground arith)
                    (λ x d.
                      create-stage s.locked.world x s.sender.ttl s.sender.i d u (ground arith))))
          | inr n' ↦
              let k : ok (record {
                sender = record { ttl = (s.sender.ttl + 1) % 2 ^ 32; i = 0; stage = choosing };
                receiver = s.receiver;
                buffer = s.buffer;
                locked = s.locked;
              })
                  ≡ ok s' =
                rw (y, n') at e in
              subst (IsInvariant q old) (ok-injective _ _ k)
                (next_hop-IsInvariant s h u (ground arith))
        ]
    | inr n ↦
        let (_, b, _) = h.position in
        let t : s.sender.ttl ≡ suc q.ttl_end = ground arith in
        let k : ok (set_stage s (ended, s.locked.world)) ≡ ok s' = rw n at e in
        subst (IsInvariant q old) (ok-injective _ _ k)
          (set_stage-IsInvariant s ended s.locked.world h (t, z t))
  ]

  pub send_packets_step-IsInvariant :
      (stage : Stage) (s s' : System env.World)
      → s.sender.stage ≡ stage
      → IsInvariant q old s
      → send_packets_step env q stage s ≡ ok s'
      → IsInvariant q old s'
  unfolding send_packets_step
  send_packets_step-IsInvariant choosing s s' c h e =
      let (_, _, inside) = h.position in
      choose-IsInvariant s s' h (subst (IsInside q s.sender.ttl s.sender.i) c inside) e
  send_packets_step-IsInvariant (created packet) s s' c h e =
      let (_, _, inside) = h.position in
      let (u, v) = subst (IsInside q s.sender.ttl s.sender.i) c inside in
      let (r, f, j) =
        first_call (catch_failure (send env q s.sender.ttl packet s.locked.world) s.locked.world)
          e in
      subst (IsInvariant q old) (ok-injective _ _ j) (
        set_stage-IsInvariant s r.0 r.1 h (
          caught (IsInside q s.sender.ttl s.sender.i)
            (send env q s.sender.ttl packet s.locked.world) s.locked.world r f (u, v)
            (λ x d. send-stage packet s.locked.world x s.sender.ttl s.sender.i d u v)))
  send_packets_step-IsInvariant (sent packet) s s' c h e =
      let (_, _, inside) = h.position in
      let (u, v) = subst (IsInside q s.sender.ttl s.sender.i) c inside in
      subst (IsInvariant q old) (ok-injective _ _ e) (push_packet-IsInvariant packet s h u v)
  send_packets_step-IsInvariant ended s s' c h e = subst (IsInvariant q old) (ok-injective _ _ e) h
  send_packets_step-IsInvariant failed s s' c h e = subst (IsInvariant q old) (ok-injective _ _ e) h
