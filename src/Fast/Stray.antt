-- ===== src/Fast/Stray.antt =====
-- What becomes of the packets that earlier calls left in an object.
use traceroute.Base.{
  ℕ, suc, ◌+◌, ◌≤◌, ◌<◌, ◌≡◌, ◌⊎◌, inl, inr, sym, subst, true, ◌==◌, ==_iff, Bool-cases,
  if◌then◌else◌, List, [], ◌∷◌, ◌++◌, length, ok, arith,
}
use traceroute.Address.{SocketAddress}
use traceroute.Packet.{get_destination_address}
use traceroute.Probe.{TracerouteResult}
use traceroute.Tracer.{Env, IsEnv}
use traceroute.Fast.{PacketToValidate, ProbeMap, any_from, transform, finish}
use traceroute.Fast.System.{Request, Sender, System, Reach}
use traceroute.Fast.Conserve.{packets_at, results_at}
use traceroute.Fast.Order.{IsKeyedFrom}
use traceroute.Fast.Position.{IsRequest, IsPosition, pushed_at}
use traceroute.Fast.Invariant.{Reach-IsInvariant}
use traceroute.Fast.Outcomes.{IsInside-end}
use traceroute.Fast.Cut.{IsCut, cut_after-IsCut}
use traceroute.Fast.Finish.{finish_cut}

-- One of the hops has this time to live and this many probes.
abbrev pub HasHop : ℕ → ℕ → List TracerouteResult → Type 0
HasHop t n [] = ⊥
HasHop t n (r ∷ rest) = ((r.ttl ≡ t) × (length r.probe_results ≡ n)) ⊎ HasHop t n rest

-- One of the hops has an answer from the target.
abbrev pub IsReached : SocketAddress → List TracerouteResult → Type 0
IsReached target [] = ⊥
IsReached target (r ∷ rest) = (any_from target r.probe_results ≡ true) ⊎ IsReached target rest

abbrev pub IsOutside : Request → ℕ → Type 0
IsOutside q t = (t < q.ttl_begin) ⊎ (q.ttl_end < t)

pushed_at-outside :
    (q : Request) (s : Sender) (t : ℕ) → IsPosition q s → IsOutside q t → pushed_at q s t ≡ 0
pushed_at-outside q s t (l, u, inside) o =
    let z = IsInside-end q s.ttl s.i s.stage inside in ground arith

results_at-above :
    (t bound : ℕ) (entries : ProbeMap)
    → t < bound
    → IsKeyedFrom bound entries
    → results_at t entries ≡ 0
results_at-above t bound [] l h = omega arith
results_at-above t bound ((key, results) ∷ entries) l (b, _, h) =
    ground (arith, results_at-above t (suc key) entries)

transform-HasHop :
    (t bound : ℕ) (entries : ProbeMap)
    → IsKeyedFrom bound entries
    → 1 ≤ results_at t entries
    → HasHop t (results_at t entries) (transform entries)
unfolding transform
transform-HasHop t bound [] h o = omega arith
transform-HasHop t bound ((key, results) ∷ entries) (b, l, h) o = elim (Bool-cases (key == t)) [
  | inl y ↦
      let e : key ≡ t = (==_iff key t).0 y in
      let no_more : results_at t entries ≡ 0 =
        results_at-above t (suc key) entries (omega arith) h in
      inl (e, rw (y, no_more) (omega arith))
  | inr n ↦
      let later : (if key == t then length results else 0) + results_at t entries
          ≡ results_at t entries =
        rw n (omega arith) in
      inr (
        subst (λ m. HasHop t m (transform entries)) (sym later)
          (transform-HasHop t (suc key) entries h (subst (λ m. 1 ≤ m) later o)))
]

front-IsReached :
    (target : SocketAddress) (front : List TracerouteResult) (last : TracerouteResult)
    → any_from target last.probe_results ≡ true
    → IsReached target (front ++ (last ∷ []))
front-IsReached target [] last y = inl y
front-IsReached target (r ∷ front) last y = inr (front-IsReached target front last y)

module _ (env : Env) {target : SocketAddress} (laws : IsEnv env target) where
  -- If factory, network and clock keep `IsEnv`: in any call of the fast tracer for a range of
  -- hops that does not wrap around, take a hop outside the range for which earlier calls left
  -- packets. Once none of them waits any more, all of them are results of this call: if `finish`
  -- then returns, the results have that hop, with as many probes as packets were left for it, or
  -- they were cut behind a hop with an answer from the target.
  pub Reach-HasHop :
      (q : Request) (old : List PacketToValidate) (t : ℕ) (s : System env.World)
      (results : List TracerouteResult)
      → IsRequest q
      → IsOutside q t
      → 1 ≤ packets_at t old
      → Reach env q old s
      → packets_at t s.locked.packets ≡ 0
      → finish env s.locked.results s.locked.world ≡ ok results
      → HasHop t (packets_at t old) results ⊎ IsReached target results
  Reach-HasHop q old t s results g out some_left r none_waits e =
      let h = Reach-IsInvariant env q g old s r in
      let (flow, _) = h.flow in
      let at_t = flow t in
      let none_sent = pushed_at-outside q s.sender t h.position out in
      let all_left : results_at t s.locked.results ≡ packets_at t old = omega arith in
      let hop : HasHop t (packets_at t old) (transform s.locked.results) =
        subst (λ n. HasHop t n (transform s.locked.results)) all_left
          (transform-HasHop t 0 s.locked.results h.keyed (omega arith)) in
      let (packet, w, c, same) =
        finish_cut env 0 s.locked.results s.locked.world results h.keyed e in
      let (aimed, _) = laws.create_lem s.locked.world w packet c in
      let aim = get_destination_address packet in
      elim (subst (IsCut aim (transform s.locked.results)) same
        (cut_after-IsCut aim (transform s.locked.results))) [
          | inl (whole, _) ↦ inl (subst (HasHop t (packets_at t old)) (sym whole) hop)
          | inr (front, last, rest, _, kept, _, y) ↦ inr (
              subst (IsReached target) (sym kept) (
                front-IsReached target front last
                  (subst (λ a. any_from a last.probe_results ≡ true) aimed y)))
        ]
