-- ===== src/Report/Traces.antt =====
-- The sequential tracer keeps the promise: a trace is a report.
use traceroute.Base.{
  Bytes, Option, none, some, ◌≡◌, refl, All, ℕ, ◌+◌, ◌≤◌, sym, subst, inl, inr, List, [], ◌∷◌,
  arith,
}
use traceroute.Address.{SocketAddress}
use traceroute.Probe.{ProbeResult, TracerouteResult}
use traceroute.Response.{ResponseInfo}
use traceroute.Sequential.Waits.{Reports, Waits-HasCome, Waits-IsExpired}
use traceroute.Tracer.{Env}
use traceroute.Tracer.Origin.{IsResult}
use traceroute.Sequential.Spec.{IsProbe, IsProbes, IsTrace}
use traceroute.Fast.Outcomes.{IsHopList}
use traceroute.Report.Promise.{StopsAt, IsToldHop}

pub IsTrace-IsHopList :
    (env : Env) (target : SocketAddress) (retries timeout ttl_end ttl : ℕ)
    (results : List TracerouteResult) (b : Bytes) (w : env.World) (b' : Bytes) (w' : env.World)
    → 1 ≤ retries
    → IsTrace env target retries timeout ttl_end ttl results b w b' w'
    → IsHopList ttl ttl_end retries results
IsTrace-IsHopList env target retries timeout ttl_end ttl [] b w b' w' o h = tt
IsTrace-IsHopList env target retries timeout ttl_end ttl (r ∷ rest) b w b' w' o
      (b₁, w₁, e, le, l, g, inl (y, z, _, _)) =
    (omega arith, omega arith, omega arith, omega arith, rw z tt)
IsTrace-IsHopList env target retries timeout ttl_end ttl (r ∷ rest) b w b' w' o
      (b₁, w₁, e, le, l, g, inr (n, h)) =
    (
      omega arith,
      omega arith,
      omega arith,
      omega arith,
      subst (λ t. IsHopList t ttl_end retries rest) (omega arith)
          (IsTrace-IsHopList env target retries timeout ttl_end (ttl + 1) rest b₁ w₁ b' w' o h),
    )

pub IsTrace-StopsAt :
    (env : Env) (target : SocketAddress) (retries timeout ttl_end ttl : ℕ)
    (results : List TracerouteResult) (b : Bytes) (w : env.World) (b' : Bytes) (w' : env.World)
    → IsTrace env target retries timeout ttl_end ttl results b w b' w'
    → StopsAt target results
IsTrace-StopsAt env target retries timeout ttl_end ttl [] b w b' w' h = tt
IsTrace-StopsAt env target retries timeout ttl_end ttl (r ∷ rest) b w b' w'
      (b₁, w₁, e, le, l, g, inl (y, z, _, _)) =
    (inr z, rw z tt)
IsTrace-StopsAt env target retries timeout ttl_end ttl (r ∷ rest) b w b' w'
      (b₁, w₁, e, le, l, g, inr (n, h)) =
    (inl n, IsTrace-StopsAt env target retries timeout ttl_end (ttl + 1) rest b₁ w₁ b' w' h)

-- What a probe reports is a failure with the timeout itself, at its end, or an answer.
reported-IsResult :
    (env : Env) (target : SocketAddress) (timeout ttl : ℕ) (r : ProbeResult) (b : Bytes)
    (w : env.World) (b' : Bytes) (w' : env.World) (h : IsProbe env target timeout ttl r b w b' w')
    (answer : Option ResponseInfo)
    → h.answer ≡ answer
    → Reports env (env.now h.sent).0 timeout h.w_end answer r
    → IsResult env target timeout ttl r
reported-IsResult env target timeout ttl r b w b' w' h none e z = inr (record {
  packet = h.packet;
  sent_at = (env.now h.sent).0;
  waited = timeout;
  is_sent = (h.made, h.sent, h.is_sent);
  for_target = (h.for_target, (w, h.made, h.is_created));
  is_read = (h.sent, refl);
  expired =
      Waits-IsExpired env h.packet (env.now h.sent).0 timeout h.answer b' h.w_end b
        (env.now h.sent).1 h.waits e;
  long = omega arith;
  reports = z;
})
reported-IsResult env target timeout ttl r b w b' w' h (some info) e (y, z, _) =
    let (come, v) =
      Waits-HasCome env h.packet (env.now h.sent).0 timeout h.answer info b' h.w_end b
        (env.now h.sent).1 h.waits e in
    inl (record {
      packet = h.packet;
      info = info;
      buffer = b';
      is_sent = (h.made, h.sent, h.is_sent);
      has_come = come;
      accepts = v;
      for_target = (h.for_target, (w, h.made, h.is_created));
      succeeds = y;
      reports = z;
    })

IsProbes-IsResult :
    (env : Env) (target : SocketAddress) (timeout ttl : ℕ) (rs : List ProbeResult) (b : Bytes)
    (w : env.World) (b' : Bytes) (w' : env.World)
    → IsProbes env target timeout ttl rs b w b' w'
    → All (IsResult env target timeout ttl) rs
IsProbes-IsResult env target timeout ttl [] b w b' w' h = tt
IsProbes-IsResult env target timeout ttl (r ∷ rs) b w b' w' (b₁, w₁, p, h) = (
  reported-IsResult env target timeout ttl r b w b₁ w₁ p p.answer refl p.reports,
  IsProbes-IsResult env target timeout ttl rs b₁ w₁ b' w' h,
)

pub IsTrace-IsToldHop :
    (env : Env) (target : SocketAddress) (retries timeout ttl_end ttl : ℕ)
    (results : List TracerouteResult) (b : Bytes) (w : env.World) (b' : Bytes) (w' : env.World)
    → IsTrace env target retries timeout ttl_end ttl results b w b' w'
    → All (IsToldHop env target timeout) results
IsTrace-IsToldHop env target retries timeout ttl_end ttl [] b w b' w' h = tt
IsTrace-IsToldHop env target retries timeout ttl_end ttl (r ∷ rest) b w b' w'
      (b₁, w₁, e, le, l, g, more) =
    (
      subst (λ t. All (IsResult env target timeout t) r.probe_results) (sym e)
          (IsProbes-IsResult env target timeout ttl r.probe_results b w b₁ w₁ g),
      elim more [
        | inl (y, z, _, _) ↦ rw z tt
        | inr (n, h) ↦
            IsTrace-IsToldHop env target retries timeout ttl_end (ttl + 1) rest b₁ w₁ b' w' h
      ],
    )
