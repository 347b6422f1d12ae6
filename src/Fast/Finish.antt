-- ===== src/Fast/Finish.antt =====
-- What stands behind the loop of the receiver: the results are in order already, so they are only
-- cut.
use traceroute.Base.{ℕ, ◌≡◌, sym, ◌∙◌, ap, List, ok, first_call, ok-injective}
use traceroute.Packet.{Packet, get_destination_address}
use traceroute.Probe.{TracerouteResult}
use traceroute.Tracer.{Env}
use traceroute.Fast.{ProbeMap, transform, cut_after, finish}
use traceroute.Fast.Order.{IsKeyedFrom, transform-IsSortedFrom, sort_by_ttl-sorted}

module _ (env : Env) where
  -- The packet that was made for its destination, and the hops that stay.
  pub finish_cut :
      (bound : ℕ) (entries : ProbeMap) (w : env.World) (results : List TracerouteResult)
      → IsKeyedFrom bound entries
      → finish env entries w ≡ ok results
      → (packet : Packet) × (w' : env.World) × (env.create_packet w ≡ ok (packet, w'))
        × (cut_after (get_destination_address packet) (transform entries) ≡ results)
  unfolding finish
  finish_cut bound entries w results keyed e =
      let ((packet, w'), c, k) = first_call (env.create_packet w) e in
      let sorted =
        sort_by_ttl-sorted bound (transform entries) (transform-IsSortedFrom bound entries keyed) in
      (
        packet,
        w',
        c,
        ap (cut_after (get_destination_address packet)) (sym sorted) ∙ ok-injective _ _ k,
      )
