-- ===== src/Fast/Halting.antt =====
-- The two threads come to an end.
use mathlib.Core.WellFounded.{Acc}
use traceroute.Base.{
  List, ℕ, zero, suc, ◌+◌, ◌*◌, ◌/◌, ◌%◌, ◌^◌, ◌≤◌, ◌<◌, ◌≡◌, refl, Bool, true, false,
  if◌then◌else◌, ok, Ensures-ok, first_call, ok-injective, subst, arith,
}
use native.Mathlib.Nat.{le_trans}
use traceroute.Fast.SenderStep.{send_packets_step-IsSenderStep}
use traceroute.Address.{SocketAddress}
use traceroute.Tracer.{Env, IsEnv}
use traceroute.Fast.{PacketToValidate, locked_section}
use traceroute.Fast.System.{
  Request, Stage, choosing, created, sent, ended, failed, Receiver, starting, checking, receiving,
  got, left, System, catch_failure, set_stage, send, push_packet, send_packets_step, set_receiver,
  receive_step, sends, receives, start, Reach, begins, steps,
}
use traceroute.Fast.Position.{IsRequest, IsInside, IsPosition}
use traceroute.Fast.Invariant.{Reach-IsInvariant}
use traceroute.Fast.Sending.{caught}
use traceroute.Fast.Progress.{messages, awaited, Reach-progress}
use traceroute.Fast.Turns.{
  sender_turn, receiver_turn, sender_turns, receiver_turns, sender_limit, receiver_limit,
  sent_by_now, sent_by_sender, heard_by_now, sent_by_now-le, heard_by_now-le, More, choose-turns,
  send-turns,
}

module _ (env : Env) (q : Request) where
  send_packets_step-turns :
      (g : IsRequest q) (stage : Stage) (s s' : System env.World)
      → s.sender.stage ≡ stage
      → IsPosition q s.sender
      → send_packets_step env q stage s ≡ ok s'
      → sent_by_now q s.sender.ttl s.sender.i stage + sender_turn stage ≤ sent_by_sender q s'.sender
  unfolding send_packets_step set_stage push_packet
  send_packets_step-turns g choosing s s' c p e =
      omega
        (arith, choose-turns env q g s s' p (subst (IsInside q s.sender.ttl s.sender.i) c p.2) e)
  send_packets_step-turns g (created packet) s s' c p e =
      let (r, f, j) =
        first_call (catch_failure (send env q s.sender.ttl packet s.locked.world) s.locked.world)
          e in
      let more : More env q s (created packet) s' =
        subst (More env q s (created packet)) (ok-injective _ _ j) (
          caught
            (λ st.
              suc (sent_by_now q s.sender.ttl s.sender.i (created packet))
              ≤ sent_by_now q s.sender.ttl s.sender.i st)
            (send env q s.sender.ttl packet s.locked.world) s.locked.world r f (omega arith)
            (λ x d. send-turns env q s.sender.ttl s.sender.i packet s.locked.world x d)) in
      omega arith
  send_packets_step-turns g (sent packet) s s' c p e =
      let (u, v) = subst (IsInside q s.sender.ttl s.sender.i) c p.2 in
      let small : q.retries < 2 ^ 32 = g.retries_small in
      let w : (s.sender.i + 1) % 2 ^ 32 ≡ suc s.sender.i = omega arith in
      let more : More env q s (sent packet) s' =
        subst (More env q s (sent packet)) (ok-injective _ _ e) (rw w (omega arith)) in
      omega arith
  send_packets_step-turns g ended s s' c p e =
      subst
        (λ (t : System env.World).
          sent_by_now q s.sender.ttl s.sender.i ended + 0 ≤ sent_by_sender q t.sender)
        (ok-injective _ _ e) (rw c (omega arith))
  send_packets_step-turns g failed s s' c p e =
      subst
        (λ (t : System env.World).
          sent_by_now q s.sender.ttl s.sender.i failed + 0 ≤ sent_by_sender q t.sender)
        (ok-injective _ _ e) (rw c (omega arith))

  checked-turns :
      (waits : Bool) (n b : ℕ)
      → 3 * n + 1 + 1 ≤ heard_by_now (n + 0) (if waits then receiving b else left)
  checked-turns true n b = omega arith
  checked-turns false n b = omega arith

  -- A step of the receiver counts, and leaves the sender where it is.
  abbrev Hears : ℕ → Receiver → System env.World → System env.World → Type 0
  Hears n r s s' =
      (heard_by_now n r + receiver_turn r ≤ heard_by_now (n + messages r) s'.receiver)
      × (s'.sender ≡ s.sender)

  receive_step-turns :
      (n : ℕ) (r : Receiver) (s s' : System env.World)
      → s.receiver ≡ r
      → receive_step env q r s ≡ ok s'
      → Hears n r s s'
  unfolding receive_step set_receiver
  receive_step-turns n starting s s' c e =
      subst (Hears n starting s) (ok-injective _ _ e) (omega arith, refl)
  receive_step-turns n (checking b) s s' c e =
      subst (Hears n (checking b) s) (ok-injective _ _ e) (checked-turns _ n b, refl)
  receive_step-turns n (receiving b) s s' c e =
      let ((resp, buffer, w'), f, k) =
        first_call (env.try_receiving s.buffer (q.timeout / 1000) s.locked.world) e in
      subst (Hears n (receiving b) s) (ok-injective _ _ k) (omega arith, refl)
  receive_step-turns n (got b resp) s s' c e =
      let (l, f, k) = first_call (locked_section env q.timeout resp s.buffer s.locked) e in
      subst (Hears n (got b resp) s) (ok-injective _ _ k) (omega arith, refl)
  receive_step-turns n left s s' c e =
      subst (Hears n left s) (ok-injective _ _ e) (rw c (omega arith), refl)

-- A step of a thread that has not ended: from the right to the left.
pub data BusyStep (env : Env) (q : Request) (s' s : System env.World) : Type 0 where
  sender_goes :
      sender_turn s.sender.stage ≡ 1
      → send_packets_step env q s.sender.stage s ≡ ok s'
      → BusyStep env q s' s
  receiver_goes :
      receiver_turn s.receiver ≡ 1 → receive_step env q s.receiver s ≡ ok s' → BusyStep env q s' s

module _ (env : Env) {target : SocketAddress} (laws : IsEnv env target) (q : Request)
    (g : IsRequest q) (old : List PacketToValidate) where
  Reach-turns :
      (s : System env.World) (r : Reach env q old s)
      → (sender_turns env q old s r ≤ sent_by_sender q s.sender)
        × (receiver_turns env q old s r ≤ heard_by_now (awaited env q old s r) s.receiver)
  unfolding start
  Reach-turns _ (begins buffer w b) = (omega arith, omega arith)
  Reach-turns _ (steps s s' r (sends _ _ e)) =
      let (m, n) = Reach-turns s r in
      let (same, _, _, _) =
        Ensures-ok (send_packets_step-IsSenderStep env laws q s.sender.stage s) e in
      (
        omega (
          arith,
          send_packets_step-turns env q g s.sender.stage s s' refl
              (Reach-IsInvariant env q g old s r).position e,
        ),
        rw same n,
      )
  Reach-turns _ (steps s s' r (receives _ _ e)) =
      let (m, n) = Reach-turns s r in
      let (h, same) = receive_step-turns env q (awaited env q old s r) s.receiver s s' refl e in
      (rw same m, omega arith)

  turns_bounds :
      (s : System env.World) (r : Reach env q old s)
      → (sender_turns env q old s r ≤ sender_limit q)
        × (receiver_turns env q old s r ≤ receiver_limit q)
  turns_bounds s r =
      let (m, n) = Reach-turns s r in
      let (l, u, inside) = (Reach-IsInvariant env q g old s r).position in
      let (_, _, few) = Reach-progress env laws q old s r in
      (
        le_trans m (sent_by_now-le q s.sender.ttl s.sender.i s.sender.stage l u inside),
        le_trans n (heard_by_now-le q (awaited env q old s r) s.receiver few),
      )

  -- `k` bounds what is left of the steps.
  abbrev Left : ℕ → (s : System env.World) → Reach env q old s → Type 0
  Left k s r =
      sender_limit q + receiver_limit q
      < k + sender_turns env q old s r + receiver_turns env q old s r

  busy-Acc :
      (k : ℕ) (s : System env.World) (r : Reach env q old s)
      → Left (suc k) s r
      → ((s' : System env.World) (r' : Reach env q old s') → Left k s' r' → Acc (BusyStep env q) s')
      → (s' : System env.World) → BusyStep env q s' s
      → Acc (BusyStep env q) s'
  busy-Acc k s r h ih s' (sender_goes t e) = ih s' (steps s s' r (sends s s' e)) (omega arith)
  busy-Acc k s r h ih s' (receiver_goes t e) = ih s' (steps s s' r (receives s s' e)) (omega arith)

  turns-Acc :
      (k : ℕ) (s : System env.World) (r : Reach env q old s) → Left k s r → Acc (BusyStep env q) s
  turns-Acc zero s r h = absurd (omega (arith, turns_bounds s r))
  turns-Acc (suc k) s r h = Acc.intro s (busy-Acc k s r h (turns-Acc k))

  -- If factory, network and clock keep `IsEnv`: in every state that the threads reach, in
  -- whatever order they run and whatever packets earlier calls left, for a range of hops that
  -- does not wrap around: the sending thread has made at most three steps for each packet of the
  -- range and one for each hop, and one to end, and the receiving thread at most three steps for
  -- each of the `limit q` messages that its time allows, and two; and no sequence of steps of
  -- threads that have not ended goes on forever.
  pub Reach-halts :
      (s : System env.World) (r : Reach env q old s)
      → (sender_turns env q old s r ≤ sender_limit q)
        × (receiver_turns env q old s r ≤ receiver_limit q)
        × Acc (BusyStep env q) s
  Reach-halts s r =
      let (m, n) = turns_bounds s r in
      (m, n, turns-Acc (suc (sender_limit q + receiver_limit q)) s r (omega arith))
