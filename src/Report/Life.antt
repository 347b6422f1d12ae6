-- ===== src/Report/Life.antt =====
-- src/FastTraceroute.cpp: an object of the fast tracer over all its calls. No call clears the
-- packets that wait, so a call begins with those that the earlier ones left.
use traceroute.Base.{
  ℕ, suc, ◌≤◌, ◌≡◌, refl, subst, Bool-cases, inl, inr, All, List, [], ◌∷◌, length, ok, throw,
  Exception, ◌⊎◌,
}
use traceroute.Address.{SocketAddress}
use traceroute.Packet.{Packet, get_destination_address}
use traceroute.Probe.{TracerouteResult}
use traceroute.Tracer.{Env, IsEnv}
use traceroute.Fast.{PacketToValidate, ProbeMap, transform, any_from, cut_after, finish}
use traceroute.Fast.System.{
  Request, Stage, choosing, created, sent, ended, failed, left, System, set_world, set_receiver,
  send_packets_step, receive_step, Reach,
}
use traceroute.Fast.Order.{IsKeyedFrom}
use traceroute.Fast.Position.{IsRequest}
use traceroute.Fast.Invariant.{Reach-IsInvariant}
use traceroute.Fast.Finish.{finish_cut}
use traceroute.Fast.Cut.{IsCut, cut_after-IsCut}
use traceroute.Fast.Origin.{IsWaiting}
use traceroute.Fast.Heard.{IsAttributed}
use traceroute.Fast.Attribution.{send_packets_step-IsAttributed, Reach-IsAttributed}
use traceroute.Report.Promise.{StopsAt, IsToldHop}
use traceroute.Report.Threads.{IsCut-StopsAt, IsCut-All, transform-IsToldHop}

abbrev IsOver : Stage → Type 0
IsOver choosing = ⊥
IsOver (created packet) = ⊥
IsOver (sent packet) = ⊥
IsOver ended = Unit
IsOver failed = Unit

-- The sending thread goes on alone until it has ended: `beginProbing` returns after that, since
-- the destructor of its future waits.
pub data Joins (env : Env) (q : Request) (s' : System env.World) : System env.World → Type 0 where
  joined : IsOver s'.sender.stage → Joins env q s' s'
  goes_on :
      {s t : System env.World}
      → send_packets_step env q s.sender.stage s ≡ ok t
      → Joins env q s' t
      → Joins env q s' s

-- The packets that wait in an object of the tracer: none when it is made, and after a call those
-- that the call leaves. The receiving thread has left its loop, wherever the sending thread
-- stands, when it makes the packet that has the target; then the sending thread goes on to its
-- end.
pub data Life (env : Env) : List PacketToValidate → Type 0 where
  made : Life env []
  called :
      (old : List PacketToValidate) (q : Request) (s s' : System env.World) (packet : Packet)
      (w : env.World)
      → Life env old
      → Reach env q old s
      → s.receiver ≡ left
      → env.create_packet s.locked.world ≡ ok (packet, w)
      → Joins env q s' (set_receiver env q s left s.buffer (set_world env q s.locked w))
      → Life env s'.locked.packets
  -- The receiving thread throws; the world counts as it was before the call that threw.
  broke_off :
      (old : List PacketToValidate) (q : Request) (s s' : System env.World) (e : Exception)
      → Life env old
      → Reach env q old s
      → (receive_step env q s.receiver s ≡ throw e) ⊎ (env.create_packet s.locked.world ≡ throw e)
      → Joins env q s' s
      → Life env s'.locked.packets

-- The hops are in strictly increasing order, and each has a probe.
abbrev pub IsOrderedFrom : ℕ → List TracerouteResult → Type 0
IsOrderedFrom bound [] = Unit
IsOrderedFrom bound (r ∷ rest) =
    (bound ≤ r.ttl) × (1 ≤ length r.probe_results) × IsOrderedFrom (suc r.ttl) rest

-- What holds of the results of any call.
pub record IsTale (env : Env) (target : SocketAddress) (timeout : ℕ)
    (results : List TracerouteResult) : Type 0 where
  pub ordered : IsOrderedFrom 0 results
  pub stops : StopsAt target results
  pub told : All (IsToldHop env target timeout) results

transform-IsOrderedFrom :
    (bound : ℕ) (entries : ProbeMap)
    → IsKeyedFrom bound entries
    → IsOrderedFrom bound (transform entries)
unfolding transform
transform-IsOrderedFrom bound [] h = tt
transform-IsOrderedFrom bound ((key, results) ∷ entries) (b, l, h) =
    (b, l, transform-IsOrderedFrom (suc key) entries h)

cut_after-IsOrderedFrom :
    (target : SocketAddress) (bound : ℕ) (results : List TracerouteResult)
    → IsOrderedFrom bound results
    → IsOrderedFrom bound (cut_after target results)
unfolding cut_after
cut_after-IsOrderedFrom target bound [] h = tt
cut_after-IsOrderedFrom target bound (r ∷ rest) (b, l, h) =
    elim (Bool-cases (any_from target r.probe_results)) [
      | inl y ↦ rw y (b, l, tt)
      | inr n ↦ rw n (b, l, cut_after-IsOrderedFrom target (suc r.ttl) rest h)
    ]

module _ (env : Env) {target : SocketAddress} (laws : IsEnv env target) where
  Joins-IsAttributed :
      (q : Request) (s' s : System env.World)
      → Joins env q s' s
      → IsAttributed env target q.timeout s
      → IsAttributed env target q.timeout s'
  Joins-IsAttributed q s' s (joined o) h = h
  Joins-IsAttributed q s' s (goes_on {t} e j) h =
      Joins-IsAttributed q s' t j
        (send_packets_step-IsAttributed env q laws s.sender.stage s t refl h e)

  closed-IsAttributed :
      (q : Request) (s : System env.World) (w : env.World)
      → IsAttributed env target q.timeout s
      → IsAttributed env target q.timeout
          (set_receiver env q s left s.buffer (set_world env q s.locked w))
  unfolding set_receiver set_world
  closed-IsAttributed q s w h = record { under_way = h.under_way; heard = tt; told = h.told }

  Life-IsWaiting : (old : List PacketToValidate) → Life env old → All (IsWaiting env target) old
  Life-IsWaiting [] made = tt
  Life-IsWaiting _ (called old q s s' packet w before r gone c j) =
      let h =
        closed-IsAttributed q s w
          (Reach-IsAttributed env q laws old s (Life-IsWaiting old before) r) in
      (Joins-IsAttributed q s' _ j h).told.0
  Life-IsWaiting _ (broke_off old q s s' e before r why j) =
      let h = Reach-IsAttributed env q laws old s (Life-IsWaiting old before) r in
      (Joins-IsAttributed q s' s j h).told.0

  -- If factory, network and clock keep `IsEnv`: in any call on an object of the fast tracer,
  -- whatever calls came before and whatever they left, and however the threads interleave, if the
  -- range of hops does not wrap around: once the receiving thread returns, the results are hops
  -- in strictly increasing order, each with at least one probe, and none but the last has an
  -- answer from the target. Each probe was given up at the end of the call's timeout, or it
  -- reports the sender of a message that came from the network and that is accepted by a packet
  -- that the factory made for the target and that was sent with the hop's time to live. Given up
  -- means that a packet that the factory made for the target was sent with the hop's time to
  -- live, that between two readings of the clock, the first of which counts as the time of the
  -- sending, more than the timeout less 10 microseconds passed, and that the result reports a
  -- failure after more than that time.
  pub Life-IsTale :
      (q : Request) (old : List PacketToValidate) (s : System env.World)
      (results : List TracerouteResult)
      → IsRequest q
      → Life env old
      → Reach env q old s
      → finish env s.locked.results s.locked.world ≡ ok results
      → IsTale env target q.timeout results
  Life-IsTale q old s results g life r e =
      let keyed = (Reach-IsInvariant env q g old s r).keyed in
      let (packet, w, c, same) = finish_cut env 0 s.locked.results s.locked.world results keyed e in
      let aim = get_destination_address packet in
      let (aimed, _) = laws.create_lem s.locked.world w packet c in
      let cut : IsCut aim (transform s.locked.results) results =
        subst (IsCut aim (transform s.locked.results)) same
          (cut_after-IsCut aim (transform s.locked.results)) in
      record {
        ordered = subst (IsOrderedFrom 0) same (
            cut_after-IsOrderedFrom aim 0 (transform s.locked.results)
              (transform-IsOrderedFrom 0 s.locked.results keyed));
        stops =
            subst (λ t. StopsAt t results) aimed
              (IsCut-StopsAt aim (transform s.locked.results) results cut);
        told =
            IsCut-All (IsToldHop env target q.timeout) aim (transform s.locked.results) results cut
              (transform-IsToldHop env target q.timeout s.locked.results
                (Reach-IsAttributed env q laws old s (Life-IsWaiting old life) r).told.1);
      }
