-- ===== src/Fast/Complete.antt =====
-- The fast tracer when all results are there.
use traceroute.Base.{
  ℕ, zero, suc, ◌+◌, ◌-◌, ◌*◌, ◌≤◌, ◌<◌, ◌%◌, ◌^◌, ◌≡◌, refl, inl, inr, ◌⊎◌, List, [], ◌∷◌, length,
  subst, arith,
}
use traceroute.Tracer.{Env}
use traceroute.Fast.{PacketToValidate, expected_size, get_current_size}
use traceroute.Fast.System.{Request, Sender, System, Reach}
use traceroute.Fast.Conserve.{packets_at, results_at, results_in}
use traceroute.Fast.Order.{get_current_size_lem}
use traceroute.Fast.Invariant.{Reach-IsInvariant}
use traceroute.Fast.Position.{IsRequest, pushed_at, pushed, IsPosition}
use traceroute.Fast.Outcomes.{IsInside-le, IsInside-end}

mod_small : (n : ℕ) → n < 2 ^ 32 → n % 2 ^ 32 ≡ n
mod_small n h = omega arith

-- The number of packets that all hops of a range take.
pub expected_size_lem :
    (q : Request)
    → IsRequest q
    → (suc q.ttl_end - q.ttl_begin) * q.retries < 2 ^ 32
    → expected_size q.ttl_begin q.ttl_end q.retries ≡ (suc q.ttl_end - q.ttl_begin) * q.retries
unfolding expected_size
expected_size_lem q g small =
    let ordered : q.ttl_begin ≤ suc q.ttl_end = g.ordered in
    let end_small : suc q.ttl_end < 2 ^ 32 = g.end_small in
    let e : (q.ttl_end + 2 ^ 32 - q.ttl_begin + 1) % 2 ^ 32 ≡ suc q.ttl_end - q.ttl_begin =
      omega arith in
    rw e (mod_small _ small)

squeeze : (d e r i : ℕ) → (suc (d + e)) * r ≤ d * r + i → i ≤ r → (i ≡ r) × ((r ≡ 0) ⊎ (e ≡ 0))
squeeze d zero r i h l = (grind arith, inr refl)
squeeze d (suc e) r i h l = let z : r ≡ 0 = grind arith in (omega arith, inl z)

length-zero : (ps : List PacketToValidate) → length ps ≡ 0 → ps ≡ []
length-zero [] e = refl
length-zero (p ∷ ps) e = ground arith

compare_end : (t last : ℕ) → t ≤ suc last → (t ≡ suc last) ⊎ (t ≤ last)
compare_end t last h = ground arith

all_pushed :
    (q : Request) (s : Sender)
    → IsPosition q s
    → (suc q.ttl_end - q.ttl_begin) * q.retries ≤ pushed q s
    → (pushed q s ≡ (suc q.ttl_end - q.ttl_begin) * q.retries)
      × ((t : ℕ) → q.ttl_begin ≤ t → t ≤ q.ttl_end → pushed_at q s t ≡ q.retries)
all_pushed q s (b, u, inside) l =
    let le = IsInside-le q s.ttl s.i s.stage inside in
    let z = IsInside-end q s.ttl s.i s.stage inside in
    elim (compare_end s.ttl q.ttl_end u) [
      | inl e ↦ (rw (e, z e) (omega arith), λ t h k. ground arith)
      | inr v ↦
          let n : suc q.ttl_end - q.ttl_begin ≡ suc ((s.ttl - q.ttl_begin) + (q.ttl_end - s.ttl)) =
            omega arith in
          let h : suc ((s.ttl - q.ttl_begin) + (q.ttl_end - s.ttl)) * q.retries
              ≤ (s.ttl - q.ttl_begin) * q.retries + s.i =
            subst (λ x. x * q.retries ≤ pushed q s) n l in
          let (full, zero_or_last) =
            squeeze (s.ttl - q.ttl_begin) (q.ttl_end - s.ttl) q.retries s.i h le in
          elim zero_or_last [
            | inl r ↦ (rw (full, r) (omega arith), λ t a k. ground arith)
            | inr last ↦
                let m : suc q.ttl_end - q.ttl_begin ≡ suc (s.ttl - q.ttl_begin) = omega arith in
                (rw (m, full) (grind arith), λ t a k. ground arith)
          ]
    ]

gap : (a b : ℕ) → a < b → (c : ℕ) × (b ≡ suc (a + c))
gap a b h = (b - suc a, omega arith)

pub more_hops : (a b r i : ℕ) → a < b → i ≤ r → a * r + i ≤ b * r
more_hops a b r i h l = let (c, e) = gap a b h in rw e (grind arith)

-- No more packets than the range takes.
pushed_most :
    (q : Request) (s : Sender)
    → IsPosition q s
    → pushed q s ≤ (suc q.ttl_end - q.ttl_begin) * q.retries
pushed_most q s (b, u, inside) =
    let le = IsInside-le q s.ttl s.i s.stage inside in
    let z = IsInside-end q s.ttl s.i s.stage inside in
    elim (compare_end s.ttl q.ttl_end u) [
      | inl e ↦ rw (e, z e) (omega arith)
      | inr v ↦
          more_hops (s.ttl - q.ttl_begin) (suc q.ttl_end - q.ttl_begin) q.retries s.i (omega arith)
            le
    ]

module _ (env : Env) (q : Request) (g : IsRequest q) where
  -- In the first call on an object, for a range of hops that is in order and does not wrap
  -- around: once the receiver counts as many results as it expects, and the count does not wrap
  -- around, no packet waits for an answer and each hop of the range has exactly the asked number
  -- of probes.
  pub complete_lem :
      (s : System env.World) (t : ℕ)
      → (suc q.ttl_end - q.ttl_begin) * q.retries < 2 ^ 32
      → Reach env q [] s
      → expected_size q.ttl_begin q.ttl_end q.retries ≤ get_current_size s.locked.results
      → q.ttl_begin ≤ t
      → t ≤ q.ttl_end
      → (s.locked.packets ≡ []) × (results_at t s.locked.results ≡ q.retries)
  complete_lem s t small r full a b =
      let h = Reach-IsInvariant env q g [] s r in
      let (f, n) = h.flow in
      let size = get_current_size_lem s.locked.results in
      let expected = expected_size_lem q g small in
      let below : results_in s.locked.results % 2 ^ 32 ≤ results_in s.locked.results =
        omega arith in
      let (all, each) = all_pushed q s.sender h.position (omega arith) in
      let none_left : s.locked.packets ≡ [] = length-zero s.locked.packets (omega arith) in
      let e = f t in
      let e' : packets_at t [] + results_at t s.locked.results ≡ pushed_at q s.sender t + 0 =
        rw none_left at e in
      (none_left, omega (arith, each t a b, e'))

  -- In the first call on an object, for a range of hops that is in order and does not wrap
  -- around, if the number of packets for the whole range does not wrap around, the count of the
  -- loop is exactly the number of results, and with the packets that still wait it never exceeds
  -- the size that the loop expects.
  pub get_current_size_bounds :
      (s : System env.World)
      → (suc q.ttl_end - q.ttl_begin) * q.retries < 2 ^ 32
      → Reach env q [] s
      → (get_current_size s.locked.results ≡ results_in s.locked.results)
        × (length s.locked.packets + get_current_size s.locked.results
            ≤ expected_size q.ttl_begin q.ttl_end q.retries)
  get_current_size_bounds s small r =
      let h = Reach-IsInvariant env q g [] s r in
      let (_, n) = h.flow in
      let most = pushed_most q s.sender h.position in
      let size = get_current_size_lem s.locked.results in
      let exact : get_current_size s.locked.results ≡ results_in s.locked.results = omega arith in
      (exact, rw (exact, expected_size_lem q g small) (omega arith))
