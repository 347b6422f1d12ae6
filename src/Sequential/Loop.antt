-- ===== src/Sequential/Loop.antt =====
-- The loop that waits for an answer: it ends, and in the way that its specification allows.
use traceroute.Base.{
  ℕ, zero, suc, ◌+◌, ◌-◌, ◌*◌, ◌/◌, ◌≤◌, ◌<◌, ◌≡◌, refl, ◌∙◌, Bool, true, false, ltb, Option, none,
  some, Bytes, length, Outcome, ok, ◌>>=◌, Ensures, returns, Ensures-bind, Ensures-of, Ensures-map,
  Bool-cases, inl, inr, arith,
}
use traceroute.Address.{SocketAddress}
use traceroute.Packet.{Packet}
use traceroute.Response.{ResponseInfo, is_valid}
use traceroute.Response.Safety.{is_valid-IsDefined}
use traceroute.Tracer.{Env, IsEnv, get_time_left, min_time_wait_for_response}
use traceroute.Sequential.{Received, judge, receive_loop}
use traceroute.Sequential.Waits.{Waits}
use traceroute.Tracer.Origin.{IsExpired, passed}

-- The response that counts.
abbrev pub answer_of : Bool → Option ResponseInfo → Option ResponseInfo
answer_of true resp = resp
answer_of false resp = none

-- A valid response is at hand.
abbrev pub Holds : Bool → Option ResponseInfo → Type 0
Holds true none = ⊥
Holds true (some info) = Unit {0}
Holds false resp = Unit {0}

module _ (env : Env) {target : SocketAddress} (laws : IsEnv env target) where
  open laws use {time, now_reads, receiving_defined, receiving_lem}

  -- What the loop leaves behind, when it began with `buffer` and `w`.
  abbrev pub Ends : Packet → ℕ → ℕ → Bytes → env.World → Received env.World → Type 0
  Ends packet sent_at timeout buffer w r =
      Waits env packet sent_at timeout (answer_of r.is_response_valid r.resp_info) r.buffer r.world
        buffer w
      × Holds r.is_response_valid r.resp_info
      × (length r.buffer ≡ length buffer)

  -- After an accepted response the loop is left.
  abbrev Stops : Option ResponseInfo → Bytes → env.World → Received env.World → Type 0
  Stops resp buffer w r = r ≡ record {
    is_response_valid = true;
    resp_info = resp;
    buffer = buffer;
    world = (env.now w).1;
  }

  receive_loop-Stops :
      (fuel : ℕ) (packet : Packet) (sent_at timeout : ℕ) (resp : Option ResponseInfo)
      (buffer : Bytes) (w : env.World)
      → 0 < fuel
      → Ensures
          (Stops resp buffer w)
          (receive_loop env fuel packet sent_at timeout true resp buffer w)
  unfolding receive_loop get_time_left
  receive_loop-Stops zero packet sent_at timeout resp buffer w f = absurd (omega arith)
  receive_loop-Stops (suc fuel) packet sent_at timeout resp buffer w f = returns _ refl

  too_late :
      (sent_at timeout : ℕ) (w : env.World)
      → ltb (get_time_left env sent_at timeout w).0 min_time_wait_for_response ≡ true
      → IsExpired env timeout sent_at w
  unfolding get_time_left
  too_late sent_at timeout w h = ground arith

  in_time :
      (sent_at timeout : ℕ) (w : env.World)
      → ltb (get_time_left env sent_at timeout w).0 min_time_wait_for_response ≡ false
      → (passed env sent_at w + 10 ≤ timeout)
        × ((get_time_left env sent_at timeout w).0 ≡ timeout - passed env sent_at w)
        × (time w < sent_at + (timeout + 1) * 1000)
  unfolding get_time_left
  in_time sent_at timeout w h = (ground arith, ground arith, ground (arith, now_reads w))

  -- A round that waits for a message, judges it and goes on to `next`.
  module _ (packet : Packet) (sent_at timeout : ℕ)
      (next : Bool → Option ResponseInfo → Bytes → env.World → Outcome (Received env.World))
      (stops : (resp : Option ResponseInfo) (buffer : Bytes) (w : env.World)
        → Ensures (Stops resp buffer w) (next true resp buffer w)) where
    judged :
        (buffer buffer' : Bytes) (w w₂ : env.World) (resp : Option ResponseInfo)
        → passed env sent_at w + 10 ≤ timeout
        → env.try_receiving buffer ((timeout - passed env sent_at w) / 1000) (env.now w).1
          ≡ ok (resp, buffer', w₂)
        → 137 ≤ length buffer'
        → length buffer' ≡ length buffer
        → Ensures (Ends packet sent_at timeout buffer' w₂) (next false resp buffer' w₂)
        → Ensures
            (Ends packet sent_at timeout buffer w)
            (do valid ← judge packet false resp buffer'; next valid resp buffer' w₂)
    unfolding judge
    judged buffer buffer' w w₂ none l e b s ih =
        Ensures-map ih (λ r h. (Waits.goes_on none l e tt h.0, h.1, h.2 ∙ s))
    judged buffer buffer' w w₂ (some info) l e b s ih =
        Ensures-bind (Ensures-of (is_valid-IsDefined packet info buffer' b) (λ v j. j)) (verdict ih)
      where
        verdict :
            Ensures (Ends packet sent_at timeout buffer' w₂) (next false (some info) buffer' w₂)
            → (valid : Bool) → is_valid packet info buffer' ≡ ok valid
            → Ensures (Ends packet sent_at timeout buffer w) (next valid (some info) buffer' w₂)
        verdict ih true j =
            Ensures-map (stops (some info) buffer' w₂)
              (λ r z. rw z (Waits.accepts info l e j refl refl, tt, s))
        verdict ih false j =
            Ensures-map ih (λ r h. (Waits.goes_on (some info) l e j h.0, h.1, h.2 ∙ s))

    -- The network answers the round.
    round_Ends :
        (buffer : Bytes) (w : env.World)
        → passed env sent_at w + 10 ≤ timeout
        → 137 ≤ length buffer
        → ((resp : Option ResponseInfo) (buffer' : Bytes) (w₂ : env.World)
            → time w < time w₂
            → 137 ≤ length buffer'
            → Ensures (Ends packet sent_at timeout buffer' w₂) (next false resp buffer' w₂))
        → Ensures (Ends packet sent_at timeout buffer w) (do
          (resp, buffer', w₂) ←
              env.try_receiving buffer ((timeout - passed env sent_at w) / 1000) (env.now w).1
          valid ← judge packet false resp buffer'
          next valid resp buffer' w₂)
    round_Ends buffer w l b k =
        Ensures-bind
          (Ensures-of
            (receiving_defined buffer ((timeout - passed env sent_at w) / 1000) (env.now w).1)
            (λ a e. e))
          λ a e.
            let (later, same) =
              receiving_lem buffer a.1 ((timeout - passed env sent_at w) / 1000) (env.now w).1 a.2
                a.0 e in
            judged buffer a.1 w a.2 a.0 l e (omega arith) same
              (k a.0 a.1 a.2 (omega (arith, now_reads w)) (omega arith))

  -- Within the fuel the loop ends or throws, and it ends as specified.
  pub receive_loop-Ends :
      (fuel : ℕ) (packet : Packet) (sent_at timeout : ℕ) (resp : Option ResponseInfo)
      (buffer : Bytes) (w : env.World)
      → sent_at + (timeout + 1) * 1000 < fuel + time w
      → 0 < fuel
      → 137 ≤ length buffer
      → Ensures
          (Ends packet sent_at timeout buffer w)
          (receive_loop env fuel packet sent_at timeout false resp buffer w)
  unfolding receive_loop get_time_left
  receive_loop-Ends zero packet sent_at timeout resp buffer w m f b = absurd (omega arith)
  receive_loop-Ends (suc fuel) packet sent_at timeout resp buffer w m f b =
      elim (Bool-cases (ltb (get_time_left env sent_at timeout w).0 min_time_wait_for_response)) [
        | inl e ↦
            rw (e, receive_loop)
              (returns _ (Waits.expires (too_late sent_at timeout w e) refl, tt, refl))
        | inr e ↦
            let (l, left, early) = in_time sent_at timeout w e in
            rw (e, receive_loop)
              (rw left (
                round_Ends packet sent_at timeout (receive_loop env fuel packet sent_at timeout)
                  (λ resp' buffer' w₂.
                    receive_loop-Stops fuel packet sent_at timeout resp' buffer' w₂ (omega arith))
                  buffer w l b
                  (λ resp' buffer' w₂ g b'.
                    receive_loop-Ends fuel packet sent_at timeout resp' buffer' w₂ (omega arith)
                      (omega arith) b')))
      ]
