-- ===== src/Sequential/Probes.antt =====
-- One probe of the sequential tracer.
use traceroute.Base.{
  ℕ, ◌+◌, ◌*◌, ◌≤◌, ◌<◌, ◌≡◌, refl, sym, subst, ap, ◌∙◌, Bool, true, false, ◌||◌, not,
  if◌then◌else◌, Option, none, some, Bytes, length, ok, send_failed, Ensures, returns, throws,
  Ensures-bind, Ensures-of, Ensures-map, Ensures-cases, arith,
}
use traceroute.Address.{SocketAddress, address_eq}
use traceroute.Packet.{Packet, get_destination_address}
use traceroute.Response.{ResponseInfo}
use traceroute.Probe.{ProbeResult, failed_probe, success_probe}
use traceroute.Tracer.{Env, IsEnv, get_time_passed_till_now}
use traceroute.Sequential.{Received, Progress, client_of, conclude, probe}
use traceroute.Sequential.Waits.{Waits, Reports}
use traceroute.Sequential.Loop.{answer_of, Holds, receive_loop-Ends}
use traceroute.Sequential.Spec.{IsProbe, after, sent_by}

-- A probe is as specified, and the flag records whether it reached the target.
abbrev pub Probes :
    (env : Env)
    → SocketAddress
    → ℕ
    → ℕ
    → Bool
    → Bytes
    → env.World
    → Progress ProbeResult env.World
    → Type 0
Probes env target timeout ttl reached buffer w p =
    IsProbe env target timeout ttl p.result buffer w p.buffer p.world
    × (p.destination_reached ≡ (reached || sent_by target p.result.response_sender))
    × (length p.buffer ≡ length buffer)

reached_lem : (b reached : Bool) → (if b then true else reached) ≡ (reached || b)
reached_lem true true = refl
reached_lem true false = refl
reached_lem false true = refl
reached_lem false false = refl

pub not_reached_lem : (reached : Bool) → reached ≡ (reached || false)
not_reached_lem true = refl
not_reached_lem false = refl

not-false : (b : Bool) → not b ≡ false → b ≡ true
not-false true e = refl
not-false false e = cc

pub or_assoc : (a b c d : Bool) → d ≡ (a || b) → (d || c) ≡ (a || (b || c))
or_assoc true b c d e = rw e
or_assoc false b c d e = rw e

module _ (env : Env) {target : SocketAddress} (laws : IsEnv env target) where
  open laws use {time, now_reads, create_defined, create_lem, sending_defined, sending_lem}

  -- What is pushed reports how the loop ended.
  abbrev Concludes :
      Packet → ℕ → ℕ → Bool → Received env.World → Progress ProbeResult env.World → Type 0
  Concludes packet sent_at timeout reached r p =
      Reports env sent_at timeout r.world (answer_of r.is_response_valid r.resp_info) p.result
      × (p.destination_reached ≡ (reached || sent_by target p.result.response_sender))
      × (p.buffer ≡ r.buffer)
      × (p.world ≡ after env (answer_of r.is_response_valid r.resp_info) r.world)

  conclude-Concludes :
      (packet : Packet) (sent_at timeout : ℕ) (reached valid : Bool) (resp : Option ResponseInfo)
      (buffer : Bytes) (w : env.World)
      → get_destination_address packet ≡ target
      → Holds valid resp
      → Ensures
          (Concludes packet sent_at timeout reached
            (record { is_response_valid = valid; resp_info = resp; buffer = buffer; world = w }))
          (conclude env packet sent_at timeout reached
            (record { is_response_valid = valid; resp_info = resp; buffer = buffer; world = w }))
  unfolding conclude client_of success_probe failed_probe get_time_passed_till_now
  conclude-Concludes packet sent_at timeout reached false resp buffer w d h =
      returns _ (refl, not_reached_lem reached, refl, refl)
  conclude-Concludes packet sent_at timeout reached true none buffer w d h = absurd h
  conclude-Concludes packet sent_at timeout reached true (some info) buffer w d h = returns _ (
    (refl, refl, refl),
    ap (λ t. if address_eq info.client t then true else reached) d
        ∙ reached_lem (address_eq info.client target) reached,
    refl,
    refl,
  )

  pub probe-Probes :
      (fuel ttl timeout : ℕ) (reached : Bool) (buffer : Bytes) (w : env.World)
      → (timeout + 1) * 1000 < fuel
      → 137 ≤ length buffer
      → Ensures
          (Probes env target timeout ttl reached buffer w)
          (probe env fuel ttl timeout reached buffer w)
  unfolding probe
  probe-Probes fuel ttl timeout reached buffer w f b =
      Ensures-bind (Ensures-of (create_defined w) (λ a e. e)) λ a c.
        let (aimed, later) = create_lem w a.1 a.0 c in
        Ensures-bind (Ensures-of (sending_defined a.0 ttl 5000 a.1) (λ s e. e)) λ s is_sent.
          Ensures-cases (not s.0) (λ _. throws send_failed)
            (λ went.
              Ensures-bind
                (receive_loop-Ends env laws fuel a.0 (env.now s.1).0 timeout none buffer
                  (env.now s.1).1 (omega (arith, now_reads s.1)) (omega arith) b)
                (λ r e.
                  Ensures-map
                    (conclude-Concludes a.0 (env.now s.1).0 timeout reached r.is_response_valid
                      r.resp_info r.buffer r.world aimed e.1)
                    (λ p h. (
                      record {
                        packet = a.0;
                        made = a.1;
                        sent = s.1;
                        answer = answer_of r.is_response_valid r.resp_info;
                        w_end = r.world;
                        is_created = c;
                        for_target = aimed;
                        is_sent = is_sent ∙ ap (λ b. ok (b, s.1)) (not-false s.0 went);
                        waits =
                            subst
                              (λ b.
                                Waits env a.0 (env.now s.1).0 timeout
                                  (answer_of r.is_response_valid r.resp_info) b r.world buffer
                                  (env.now s.1).1)
                              (sym h.2) e.0;
                        reports = h.0;
                        leaves = h.3;
                      },
                      h.1,
                      ap length h.2 ∙ e.2,
                    ))))
