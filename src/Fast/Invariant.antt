-- ===== src/Fast/Invariant.antt =====
-- The invariant of the two threads.
use traceroute.Base.{List, refl, Bytes, arith}
use traceroute.Tracer.{Env}
use traceroute.Fast.{PacketToValidate}
use traceroute.Fast.System.{Request, System, sends, receives, start, Reach, begins, steps}
use traceroute.Fast.Position.{IsRequest, IsInvariant}
use traceroute.Fast.Receiving.{receive_step-IsInvariant}
use traceroute.Fast.Sending.{send_packets_step-IsInvariant}

module _ (env : Env) (q : Request) (g : IsRequest q) (old : List PacketToValidate) where
  start-IsInvariant :
      (buffer : Bytes) (w : env.World) → IsInvariant q old (start env q old buffer w)
  unfolding start
  start-IsInvariant buffer w = record {
    position = (omega arith, g.ordered, (omega arith, λ _. refl));
    flow = (λ t. ground arith, ground arith);
    keyed = tt;
  }

  -- For a range of hops that is in order and does not wrap around, in every state that the two
  -- threads reach, in whatever order they run and whatever packets earlier calls left in the
  -- object: the sender stands inside its loops; for each hop and in all, the packets that wait
  -- and the results together are as many as the packets that the sender has recorded and those
  -- that were left; and the results are in the order of their hops, none empty.
  pub Reach-IsInvariant : (s : System env.World) → Reach env q old s → IsInvariant q old s
  Reach-IsInvariant s (begins buffer w _) = start-IsInvariant buffer w
  Reach-IsInvariant s (steps _ _ r (sends s₀ _ e)) =
      send_packets_step-IsInvariant env q g old s₀.sender.stage s₀ s refl (Reach-IsInvariant s₀ r) e
  Reach-IsInvariant s (steps _ _ r (receives s₀ _ e)) =
      receive_step-IsInvariant env q old s₀.receiver s₀ s (Reach-IsInvariant s₀ r) e
