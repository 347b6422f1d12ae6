-- ===== src/Fast/SenderStep.antt =====
-- A step of the sending thread.
use traceroute.Base.{
  ℕ, ◌≤◌, ◌≡◌, refl, ltb, leb, Outcome, ok, ◌>>=◌, Ensures, returns, throws, Ensures-bind,
  Ensures-of, Ensures-if, arith,
}
use traceroute.Address.{SocketAddress}
use traceroute.Packet.{Packet}
use traceroute.Tracer.{Env, IsEnv}
use traceroute.Fast.System.{
  Request, Stage, choosing, created, sent, ended, failed, System, catch_failure, set_stage, create,
  send, push_packet, choose, send_packets_step,
}

catch_failure-IsDefined :
    {W : Type 0} {P : Stage × W → Type 0} {m : Outcome (Stage × W)} (w : W)
    → Ensures P m
    → P (failed, w)
    → Ensures P (catch_failure m w)
unfolding catch_failure
catch_failure-IsDefined w (returns r p) f = returns r p
catch_failure-IsDefined w (throws e) f = returns _ f

module _ (env : Env) {target : SocketAddress} (laws : IsEnv env target) (q : Request) where
  open laws use {
    time, now_reads, create_defined, create_lem, sending_defined, sending_lem, receiving_defined,
    receiving_lem,
  }

  -- A step of the sender leaves the receiver, its buffer and its results alone, and time does not
  -- go back.
  abbrev pub IsSenderStep : System env.World → System env.World → Type 0
  IsSenderStep s s' =
      (s'.receiver ≡ s.receiver)
      × (s'.buffer ≡ s.buffer)
      × (s'.locked.results ≡ s.locked.results)
      × (time s.locked.world ≤ time s'.locked.world)

  set_stage-IsSenderStep :
      (s : System env.World) (m : Outcome (Stage × env.World))
      → Ensures (λ r. time s.locked.world ≤ time r.1) m
      → Ensures (IsSenderStep s) (do r ← catch_failure m s.locked.world; ok (set_stage s r))
  unfolding set_stage
  set_stage-IsSenderStep s m h =
      Ensures-bind (catch_failure-IsDefined s.locked.world h (omega arith))
        (λ r l. returns _ (refl, refl, refl, l))

  create-time : (w : env.World) → Ensures (λ r. time w ≤ time r.1) (create env q w)
  unfolding create
  create-time w =
      Ensures-bind (Ensures-of (create_defined w) (λ a e. create_lem w a.1 a.0 e))
        (λ a l. returns _ l.1)

  send-time :
      (ttl : ℕ) (packet : Packet) (w : env.World)
      → Ensures (λ r. time w ≤ time r.1) (send env q ttl packet w)
  unfolding send
  send-time ttl packet w =
      Ensures-bind
        (Ensures-of (sending_defined packet ttl 5000 w)
          (λ a e. sending_lem packet ttl 5000 w a.1 a.0 e))
        (λ a l. Ensures-if a.0 (returns _ l) (throws _))

  pub send_packets_step-IsSenderStep :
      (stage : Stage) (s : System env.World)
      → Ensures (IsSenderStep s) (send_packets_step env q stage s)
  unfolding send_packets_step choose push_packet set_stage
  send_packets_step-IsSenderStep choosing s =
      Ensures-if (leb s.sender.ttl q.ttl_end)
        (Ensures-if (ltb s.sender.i q.retries)
          (set_stage-IsSenderStep s (create env q s.locked.world) (create-time s.locked.world))
          (returns _ (refl, refl, refl, omega arith)))
        (returns _ (refl, refl, refl, omega arith))
  send_packets_step-IsSenderStep (created packet) s =
      set_stage-IsSenderStep s (send env q s.sender.ttl packet s.locked.world)
        (send-time s.sender.ttl packet s.locked.world)
  send_packets_step-IsSenderStep (sent packet) s =
      returns _ (refl, refl, refl, omega (arith, now_reads s.locked.world))
  send_packets_step-IsSenderStep ended s = returns _ (refl, refl, refl, omega arith)
  send_packets_step-IsSenderStep failed s = returns _ (refl, refl, refl, omega arith)
