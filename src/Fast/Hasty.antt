-- ===== src/Fast/Hasty.antt =====
-- A timeout below a millisecond: `duration_cast<milliseconds>` of it is 0, and so is the time of
-- the receiving loop.
use traceroute.Base.{
  ℕ, ◌/◌, ◌<◌, ◌≡◌, refl, sym, ◌∙◌, false, ltb, if◌then◌else◌, Bool, Bool-cases, inl, inr, List, [],
  ok, first_call, ok-injective, subst, Ensures-ok, arith,
}
use traceroute.Address.{SocketAddress}
use traceroute.Probe.{TracerouteResult}
use traceroute.Tracer.{Env, IsEnv, get_time_left}
use traceroute.Fast.{
  PacketToValidate, ProbeMap, keeps_waiting, get_current_size, expected_max_time_taken, transform,
  sort_by_ttl, cut_after, finish,
}
use traceroute.Fast.System.{
  Request, Receiver, starting, checking, receiving, got, left, System, set_receiver, set_world,
  receive_step, sends, receives, start, Reach, begins, steps,
}
use traceroute.Fast.SenderStep.{send_packets_step-IsSenderStep}

-- The receiver has not awaited a message.
abbrev pub IsDeaf : Receiver → Type 0
IsDeaf starting = Unit
IsDeaf (checking b) = Unit
IsDeaf (receiving b) = ⊥
IsDeaf (got b resp) = ⊥
IsDeaf left = Unit

module _ (env : Env) (q : Request) (short : q.timeout < 1000) where
  no_time : (size : ℕ) → expected_max_time_taken q.timeout size ≡ 0
  unfolding expected_max_time_taken
  no_time size = let z : q.timeout / 1000 ≡ 0 = omega arith in rw z (omega arith)

  none_left : (begin_at : ℕ) (w : env.World) → ltb 0 (get_time_left env begin_at 0 w).0 ≡ false
  unfolding get_time_left
  none_left begin_at w = ground arith

  keeps_waiting-false :
      (begin_at size : ℕ) (results : ProbeMap) (w : env.World)
      → (keeps_waiting env begin_at size q.timeout results w).0 ≡ false
  unfolding keeps_waiting
  keeps_waiting-false begin_at size results w =
      elim (Bool-cases (ltb (get_current_size results) size)) [
        | inl y ↦ rw y (rw (no_time size) (none_left begin_at w))
        | inr n ↦ rw n refl
      ]

  abbrev IsHasty : System env.World → Type 0
  IsHasty s = (s.locked.results ≡ []) × IsDeaf s.receiver

  checked-IsDeaf :
      (waits : Bool) (b : ℕ) → waits ≡ false → IsDeaf (if waits then receiving b else left)
  checked-IsDeaf waits b e = rw e tt

  receive_step-IsHasty :
      (r : Receiver) (s s' : System env.World)
      → IsDeaf r
      → s.locked.results ≡ []
      → s.receiver ≡ r
      → receive_step env q r s ≡ ok s'
      → IsHasty s'
  unfolding receive_step set_receiver set_world
  receive_step-IsHasty starting s s' h z c e = subst IsHasty (ok-injective _ _ e) (z, tt)
  receive_step-IsHasty (checking b) s s' h z c e =
      subst IsHasty (ok-injective _ _ e)
        (z, checked-IsDeaf _ b (keeps_waiting-false b _ s.locked.results s.locked.world))
  receive_step-IsHasty (receiving b) s s' h z c e = absurd h
  receive_step-IsHasty (got b resp) s s' h z c e = absurd h
  receive_step-IsHasty left s s' h z c e = subst IsHasty (ok-injective _ _ e) (z, rw c tt)

module _ (env : Env) {target : SocketAddress} (laws : IsEnv env target) (q : Request)
    (short : q.timeout < 1000) (old : List PacketToValidate) where
  Reach-IsHasty : (s : System env.World) → Reach env q old s → IsHasty env q short s
  unfolding start
  Reach-IsHasty _ (begins buffer w b) = (refl, tt)
  Reach-IsHasty _ (steps s s' r (sends _ _ e)) =
      let (z, h) = Reach-IsHasty s r in
      let (same, _, results, _) =
        Ensures-ok (send_packets_step-IsSenderStep env laws q s.sender.stage s) e in
      (results ∙ z, rw same h)
  Reach-IsHasty _ (steps s s' r (receives _ _ e)) =
      let (z, h) = Reach-IsHasty s r in receive_step-IsHasty env q short s.receiver s s' h z refl e

  -- If factory, network and clock keep `IsEnv`: for a timeout below a millisecond a call of the
  -- fast tracer, whatever earlier calls left and however the threads interleave, returns no hop,
  -- and the receiving thread then neither awaits nor holds a message.
  pub finish-empty :
      (s : System env.World) (results : List TracerouteResult)
      → Reach env q old s
      → finish env s.locked.results s.locked.world ≡ ok results
      → IsDeaf s.receiver × (results ≡ [])
  unfolding finish transform sort_by_ttl cut_after
  finish-empty s results r e =
      let (z, h) = Reach-IsHasty s r in
      let ((packet, w), _, k) = first_call (env.create_packet s.locked.world) e in
      let none : ok [] ≡ ok results = rw z at k in (h, sym (ok-injective _ _ none))
