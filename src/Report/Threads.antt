-- ===== src/Report/Threads.antt =====
-- The fast tracer keeps the promise: what stays when the hops are cut.
use traceroute.Base.{
  All, ℕ, ◌≡◌, refl, sym, ◌∙◌, subst, inl, inr, Option, none, some, List, [], ◌∷◌, ◌++◌,
}
use traceroute.Address.{SocketAddress}
use traceroute.Probe.{ProbeResult, TracerouteResult}
use traceroute.Tracer.{Env}
use traceroute.Sequential.Spec.{sent_by, any_reached}
use traceroute.Fast.Origin.{IsEntry}
use traceroute.Fast.{ProbeMap, any_from, is_from, transform}
use traceroute.Fast.Cut.{Misses, IsCut}
use traceroute.Report.Promise.{StopsAt, IsToldHop}

is_from_lem :
    (target : SocketAddress) (sender : Option SocketAddress)
    → is_from target sender ≡ sent_by target sender
unfolding is_from
is_from_lem target none = refl
is_from_lem target (some a) = refl

any_from_lem :
    (target : SocketAddress) (rs : List ProbeResult) → any_from target rs ≡ any_reached target rs
unfolding any_from
any_from_lem target [] = refl
any_from_lem target (r ∷ rest) =
    rw (is_from_lem target r.response_sender, any_from_lem target rest) refl

Misses-StopsAt :
    (target : SocketAddress) (results : List TracerouteResult)
    → Misses target results
    → StopsAt target results
Misses-StopsAt target [] m = tt
Misses-StopsAt target (r ∷ rest) (n, m) =
    (inl (sym (any_from_lem target r.probe_results) ∙ n), Misses-StopsAt target rest m)

front-StopsAt :
    (target : SocketAddress) (front : List TracerouteResult) (last : TracerouteResult)
    → Misses target front
    → StopsAt target (front ++ (last ∷ []))
front-StopsAt target [] last m = (inr refl, tt)
front-StopsAt target (r ∷ rest) last (n, m) =
    (inl (sym (any_from_lem target r.probe_results) ∙ n), front-StopsAt target rest last m)

pub IsCut-StopsAt :
    (target : SocketAddress) (results kept : List TracerouteResult)
    → IsCut target results kept
    → StopsAt target kept
IsCut-StopsAt target results kept (inl (e, m)) =
    subst (StopsAt target) (sym e) (Misses-StopsAt target results m)
IsCut-StopsAt target results kept (inr (front, last, rest, e, k, m, y)) =
    subst (StopsAt target) (sym k) (front-StopsAt target front last m)

All-front :
    {A : Type 0} (P : A → Type 0) (front : List A) (last : A) (rest : List A)
    → All P (front ++ (last ∷ rest))
    → All P (front ++ (last ∷ []))
All-front P [] last rest (h, k) = (h, tt)
All-front P (x ∷ front) last rest (h, k) = (h, All-front P front last rest k)

-- What all hops have, those that stay have.
pub IsCut-All :
    (P : TracerouteResult → Type 0) (target : SocketAddress) (results kept : List TracerouteResult)
    → IsCut target results kept
    → All P results
    → All P kept
IsCut-All P target results kept (inl (e, m)) h = subst (All P) (sym e) h
IsCut-All P target results kept (inr (front, last, rest, e, k, m, y)) h =
    subst (All P) (sym k) (All-front P front last rest (subst (All P) e h))

pub transform-IsToldHop :
    (env : Env) (target : SocketAddress) (timeout : ℕ) (entries : ProbeMap)
    → All (IsEntry env target timeout) entries
    → All (IsToldHop env target timeout) (transform entries)
unfolding transform
transform-IsToldHop env target timeout [] h = tt
transform-IsToldHop env target timeout ((key, results) ∷ entries) (h, k) =
    (h, transform-IsToldHop env target timeout entries k)
