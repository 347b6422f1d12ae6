-- ===== src/Fast/Cut.antt =====
-- What stays of the hops at the end.
use traceroute.Base.{◌≡◌, refl, ap, true, false, Bool-cases, inl, inr, ◌⊎◌, List, [], ◌∷◌, ◌++◌}
use traceroute.Address.{SocketAddress}
use traceroute.Probe.{TracerouteResult}
use traceroute.Fast.{any_from, cut_after}

-- No probe of the hops is an answer from the target.
abbrev pub Misses : SocketAddress → List TracerouteResult → Type 0
Misses target [] = Unit
Misses target (r ∷ rest) = (any_from target r.probe_results ≡ false) × Misses target rest

-- Either no hop reached the target and nothing is cut, or the list ends with the first that did.
abbrev pub IsCut : SocketAddress → List TracerouteResult → List TracerouteResult → Type 0
IsCut target results kept =
    ((kept ≡ results) × Misses target results)
    ⊎ ((front : List TracerouteResult) × (last : TracerouteResult) × (rest : List TracerouteResult)
        × (results ≡ front ++ (last ∷ rest))
        × (kept ≡ front ++ (last ∷ []))
        × Misses target front
        × (any_from target last.probe_results ≡ true))

-- `cut_after` keeps all hops if none reached the target, else those up to the first that did.
pub cut_after-IsCut :
    (target : SocketAddress) (results : List TracerouteResult)
    → IsCut target results (cut_after target results)
unfolding cut_after
cut_after-IsCut target [] = inl (refl, tt)
cut_after-IsCut target (r ∷ rest) = elim (Bool-cases (any_from target r.probe_results)) [
  | inl y ↦ rw y (inr ([], r, rest, refl, refl, tt, y))
  | inr n ↦ elim (cut_after-IsCut target rest) [
    | inl (e, m) ↦ rw n (inl (ap (λ x. r ∷ x) e, (refl, m)))
    | inr (front, last, tail, e, k, m, y) ↦
        rw n (inr (r ∷ front, last, tail, ap (λ x. r ∷ x) e, ap (λ x. r ∷ x) k, (n, m), y))
  ]
]
