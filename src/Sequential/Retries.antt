-- ===== src/Sequential/Retries.antt =====
-- The probes of one hop of the sequential tracer.
use mathlib.Core.List.{append-nil, append_assoc}
use traceroute.Base.{
  ℕ, zero, suc, ◌+◌, ◌*◌, ◌≤◌, ◌<◌, ◌≡◌, refl, sym, ap, ◌∙◌, Bool, ◌||◌, Bytes, List, [], ◌∷◌, ◌++◌,
  length, Ensures, returns, Ensures-bind, Ensures-map, arith,
}
use traceroute.Address.{SocketAddress}
use traceroute.Probe.{ProbeResult}
use traceroute.Tracer.{Env, IsEnv}
use traceroute.Sequential.{Progress, retry_loop}
use traceroute.Sequential.Spec.{IsProbes, any_reached}
use traceroute.Sequential.Probes.{not_reached_lem, or_assoc, probe-Probes}

module _ (env : Env) {target : SocketAddress} (laws : IsEnv env target) where
  open laws use {time, now_reads, create_defined, create_lem, sending_defined, sending_lem}

  -- The results that a loop over the retries adds.
  abbrev pub Retries :
      ℕ
      → ℕ
      → ℕ
      → List ProbeResult
      → Bool
      → Bytes
      → env.World
      → Progress (List ProbeResult) env.World
      → Type 0
  Retries timeout ttl left before reached buffer w p =
      (new : List ProbeResult) × (p.result ≡ before ++ new)
      × (length new ≡ left)
      × IsProbes env target timeout ttl new buffer w p.buffer p.world
      × (p.destination_reached ≡ (reached || any_reached target new))
      × (length p.buffer ≡ length buffer)

  pub retry_loop-Retries :
      (fuel ttl timeout left : ℕ) (before : List ProbeResult) (reached : Bool) (buffer : Bytes)
      (w : env.World)
      → (timeout + 1) * 1000 < fuel
      → 137 ≤ length buffer
      → Ensures
          (Retries timeout ttl left before reached buffer w)
          (retry_loop env fuel ttl timeout left before reached buffer w)
  unfolding retry_loop
  retry_loop-Retries fuel ttl timeout zero before reached buffer w f b =
      returns _ ([], sym (append-nil before), refl, (refl, refl), not_reached_lem reached, refl)
  retry_loop-Retries fuel ttl timeout (suc left) before reached buffer w f b =
      Ensures-bind (probe-Probes env laws fuel ttl timeout reached buffer w f b) λ p h.
        Ensures-map
          (retry_loop-Retries fuel ttl timeout left (before ++ (p.result ∷ []))
            p.destination_reached p.buffer p.world f (omega arith))
          (λ q (new, e, l, g, r, k). (
            p.result ∷ new,
            e ∙ append_assoc before (p.result ∷ []) new,
            ap suc l,
            (p.buffer, p.world, h.0, g),
            r ∙ or_assoc reached _ _ _ h.1,
            k ∙ h.2,
          ))
