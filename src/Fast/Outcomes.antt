-- ===== src/Fast/Outcomes.antt =====
-- What `beginProbing` of the fast tracer returns.
use traceroute.Base.{
  ℕ, suc, ◌≤◌, ◌≡◌, Bool-cases, inl, inr, ==_refl, List, [], ◌∷◌, length, ok, subst, arith,
}
use traceroute.Packet.{Packet, get_destination_address}
use traceroute.Address.{SocketAddress}
use traceroute.Probe.{TracerouteResult}
use traceroute.Tracer.{Env}
use traceroute.Fast.{ProbeMap, transform, cut_after, any_from, finish}
use traceroute.Fast.System.{
  Request, Stage, choosing, created, sent, ended, failed, Sender, System, Reach,
}
use traceroute.Fast.Conserve.{results_at}
use traceroute.Fast.Order.{IsKeyedFrom}
use traceroute.Fast.Finish.{finish_cut}
use traceroute.Fast.Cut.{IsCut, cut_after-IsCut}
use traceroute.Fast.Invariant.{Reach-IsInvariant}
use traceroute.Fast.Position.{IsRequest, pushed_at, IsInside, IsPosition, IsInvariant}

-- The hops lie in a range and in order, each with at least one probe and at most the asked
-- number.
abbrev pub IsHopList : ℕ → ℕ → ℕ → List TracerouteResult → Type 0
IsHopList first last retries [] = Unit
IsHopList first last retries (r ∷ rest) =
    (first ≤ r.ttl)
    × (r.ttl ≤ last)
    × (1 ≤ length r.probe_results)
    × (length r.probe_results ≤ retries)
    × IsHopList (suc r.ttl) last retries rest

pub IsInside-le : (q : Request) (ttl i : ℕ) (stage : Stage) → IsInside q ttl i stage → i ≤ q.retries
IsInside-le q ttl i choosing (l, _) = l
IsInside-le q ttl i (created p) (_, l) = omega arith
IsInside-le q ttl i (sent p) (_, l) = omega arith
IsInside-le q ttl i ended (_, l) = omega arith
IsInside-le q ttl i failed (_, l) = omega arith

pub IsInside-end :
    (q : Request) (ttl i : ℕ) (stage : Stage) → IsInside q ttl i stage → ttl ≡ suc q.ttl_end → i ≡ 0
IsInside-end q ttl i choosing (_, f) e = f e
IsInside-end q ttl i (created p) (l, _) e = omega arith
IsInside-end q ttl i (sent p) (l, _) e = omega arith
IsInside-end q ttl i ended (_, f) e = f
IsInside-end q ttl i failed (l, _) e = omega arith

-- A hop has at most the asked number of results, and none outside the range.
abbrev IsBounded : ℕ → ℕ → ℕ → ℕ → Type 0
IsBounded last retries t n = (n ≤ retries) × (1 ≤ n → t ≤ last)

pushed_at-IsBounded :
    (q : Request) (s : Sender) (t : ℕ)
    → IsPosition q s
    → IsBounded q.ttl_end q.retries t (pushed_at q s t)
pushed_at-IsBounded q s t (l, u, inside) =
    let i = IsInside-le q s.ttl s.i s.stage inside in
    let z = IsInside-end q s.ttl s.i s.stage inside in (ground arith, λ h. ground arith)

transform-IsHopList :
    (bound last retries : ℕ) (entries : ProbeMap)
    → IsKeyedFrom bound entries
    → ((t : ℕ) → IsBounded last retries t (results_at t entries))
    → IsHopList bound last retries (transform entries)
unfolding transform
transform-IsHopList bound last retries [] h k = tt
transform-IsHopList bound last retries ((key, results) ∷ entries) (b, l, h) k =
    let (r, f) = k key in
    let e = ==_refl key in
    (
      b,
      f (rw e (omega arith)),
      l,
      ground arith,
      transform-IsHopList (suc key) last retries entries h
          (λ t. let (r', f') = k t in (omega arith, λ o. f' (omega arith))),
    )

raise-IsKeyedFrom :
    (first : ℕ) (entries : ProbeMap)
    → IsKeyedFrom 0 entries
    → ((t : ℕ) → 1 ≤ results_at t entries → first ≤ t)
    → IsKeyedFrom first entries
raise-IsKeyedFrom first [] h k = tt
raise-IsKeyedFrom first ((key, results) ∷ entries) (b, l, h) k =
    (k key (rw (==_refl key) (omega arith)), l, h)

cut_after-IsHopList :
    (target : SocketAddress) (bound last retries : ℕ) (results : List TracerouteResult)
    → IsHopList bound last retries results
    → IsHopList bound last retries (cut_after target results)
unfolding cut_after
cut_after-IsHopList target bound last retries [] h = tt
cut_after-IsHopList target bound last retries (r ∷ rest) (a, b, c, d, h) =
    elim (Bool-cases (any_from target r.probe_results)) [
      | inl y ↦ rw y (a, b, c, d, tt)
      | inr n ↦ rw n (a, b, c, d, cut_after-IsHopList target (suc r.ttl) last retries rest h)
    ]

-- The answer for a request: hops in order and in the range, cut behind the first that reached the
-- target, which is where the factory's next packet goes.
pub record IsAnswer (env : Env) (q : Request) (s : System env.World)
    (results : List TracerouteResult) : Type 0 where
  pub packet : Packet
  pub world : env.World
  pub creates : env.create_packet s.locked.world ≡ ok (packet, world)
  pub hops : IsHopList q.ttl_begin q.ttl_end q.retries results
  pub cut : IsCut (get_destination_address packet) (transform s.locked.results) results

module _ (env : Env) (q : Request) (g : IsRequest q) where
  results_at-IsBounded :
      (s : System env.World)
      → IsInvariant q [] s
      → (t : ℕ) → IsBounded q.ttl_end q.retries t (results_at t s.locked.results)
  results_at-IsBounded s h t =
      let (f, _) = h.flow in
      let e = f t in
      let (r, b) = pushed_at-IsBounded q s.sender t h.position in
      (omega arith, λ o. b (omega arith))

  results-IsKeyedFrom :
      (s : System env.World) → IsInvariant q [] s → IsKeyedFrom q.ttl_begin s.locked.results
  results-IsKeyedFrom s h =
      raise-IsKeyedFrom q.ttl_begin s.locked.results h.keyed
        (λ t o. let (f, _) = h.flow in let e = f t in ground arith)

  -- In the first call on an object, for a range of hops that does not wrap around, whatever the
  -- order in which the threads run, once `finish` returns on a state that they reach, the results
  -- are hops of the asked range in strictly increasing order, each with at least one and at most
  -- the asked number of probes, cut behind the first hop that reached the target.
  pub finish-IsAnswer :
      (s : System env.World) (results : List TracerouteResult)
      → Reach env q [] s
      → finish env s.locked.results s.locked.world ≡ ok results
      → IsAnswer env q s results
  finish-IsAnswer s results r e =
      let h = Reach-IsInvariant env q g [] s r in
      let keyed = results-IsKeyedFrom s h in
      let (packet, w, c, same) =
        finish_cut env q.ttl_begin s.locked.results s.locked.world results keyed e in
      let target = get_destination_address packet in
      record {
        packet = packet;
        world = w;
        creates = c;
        hops = subst (IsHopList q.ttl_begin q.ttl_end q.retries) same (
            cut_after-IsHopList target q.ttl_begin q.ttl_end q.retries (transform s.locked.results)
              (transform-IsHopList q.ttl_begin q.ttl_end q.retries s.locked.results keyed
                (results_at-IsBounded s h)));
        cut =
            subst (IsCut target (transform s.locked.results)) same
              (cut_after-IsCut target (transform s.locked.results));
      }
