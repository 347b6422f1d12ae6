-- ===== src/Fast/Receiving.antt =====
-- The steps of the receiving thread against the invariant.
use traceroute.Base.{List, ◌/◌, ◌≡◌, ◌∙◌, ok, first_call, ok-injective, subst}
use traceroute.Tracer.{Env}
use traceroute.Fast.{PacketToValidate, locked_section}
use traceroute.Fast.System.{
  Request, Receiver, starting, checking, receiving, got, left, System, set_receiver, set_world,
  receive_step,
}
use traceroute.Fast.Conserve.{locked_section-Conserves}
use traceroute.Fast.Order.{locked_section-IsKeyedFrom}
use traceroute.Fast.Position.{IsInvariant}

module _ (env : Env) (q : Request) (old : List PacketToValidate) where
  pub receive_step-IsInvariant :
      (r : Receiver) (s s' : System env.World)
      → IsInvariant q old s
      → receive_step env q r s ≡ ok s'
      → IsInvariant q old s'
  unfolding receive_step set_receiver set_world
  receive_step-IsInvariant starting s s' h e =
      subst (IsInvariant q old) (ok-injective _ _ e)
        (record { position = h.position; flow = h.flow; keyed = h.keyed })
  receive_step-IsInvariant (checking b) s s' h e =
      subst (IsInvariant q old) (ok-injective _ _ e)
        (record { position = h.position; flow = h.flow; keyed = h.keyed })
  receive_step-IsInvariant (receiving b) s s' h e =
      let ((resp, buffer, w'), f, k) =
        first_call (env.try_receiving s.buffer (q.timeout / 1000) s.locked.world) e in
      subst (IsInvariant q old) (ok-injective _ _ k)
        (record { position = h.position; flow = h.flow; keyed = h.keyed })
  receive_step-IsInvariant (got b resp) s s' h e =
      let (l, f, k) = first_call (locked_section env q.timeout resp s.buffer s.locked) e in
      let (c, n) = locked_section-Conserves env q.timeout resp s.buffer s.locked l f in
      let (c', n') = h.flow in
      subst (IsInvariant q old) (ok-injective _ _ k) (record {
        position = h.position;
        flow = (λ t. c t ∙ c' t, n ∙ n');
        keyed = locked_section-IsKeyedFrom env q.timeout resp s.buffer s.locked l f h.keyed;
      })
  receive_step-IsInvariant left s s' h e = subst (IsInvariant q old) (ok-injective _ _ e) h
