-- ===== src/Fast/Order.antt =====
-- The order of the keys in the map of the results, the sorting of the hops and the size that the
-- loop counts.
use traceroute.Base.{
  ℕ, suc, ◌+◌, ◌≤◌, ◌<◌, ◌%◌, ◌^◌, ◌≡◌, refl, ◌∙◌, ap, Bool-cases, inl, inr, ltb, List, [], ◌∷◌,
  ◌++◌, length, length-append, Option, none, some, Bytes, ok, ok-injective, first_call, subst,
  arith,
}
use traceroute.Address.{SocketAddress}
use traceroute.Response.{ResponseInfo}
use traceroute.Probe.{ProbeResult, TracerouteResult}
use traceroute.Tracer.{Env, get_time_left, min_time_wait_for_response}
use traceroute.Fast.{
  PacketToValidate, find_valid, Locked, record_success, accept_response, expire_loop,
  locked_section, ProbeMap, push_result, transform, insert_by_ttl, sort_by_ttl, current_size_from,
  get_current_size,
}
use traceroute.Fast.Conserve.{results_in}

-- Every key is at least `bound`, the keys increase, and no entry is empty.
abbrev pub IsKeyedFrom : ℕ → ProbeMap → Type 0
IsKeyedFrom bound [] = Unit
IsKeyedFrom bound ((key, results) ∷ entries) =
    (bound ≤ key) × (1 ≤ length results) × IsKeyedFrom (suc key) entries

abbrev pub IsSortedFrom : ℕ → List TracerouteResult → Type 0
IsSortedFrom bound [] = Unit
IsSortedFrom bound (r ∷ rest) = (bound ≤ r.ttl) × IsSortedFrom (suc r.ttl) rest

pub push_result-IsKeyedFrom :
    (bound ttl : ℕ) (r : ProbeResult) (entries : ProbeMap)
    → bound ≤ ttl
    → IsKeyedFrom bound entries
    → IsKeyedFrom bound (push_result ttl r entries)
unfolding push_result
push_result-IsKeyedFrom bound ttl r [] le h = (le, omega arith, tt)
push_result-IsKeyedFrom bound ttl r ((key, results) ∷ entries) le (b, l, h) =
    ground (arith, length-append results (r ∷ []), push_result-IsKeyedFrom (suc key) ttl r entries)

module _ (env : Env) where
  record_success-IsKeyedFrom :
      (client : SocketAddress) (s : Locked env.World)
      (r : Option (PacketToValidate × List PacketToValidate))
      → IsKeyedFrom 0 s.results
      → IsKeyedFrom 0 (record_success env client s r).results
  unfolding record_success
  record_success-IsKeyedFrom client s none h = h
  record_success-IsKeyedFrom client s (some (found, others)) h =
      push_result-IsKeyedFrom 0 found.ttl _ s.results (omega arith) h

  expire_loop-IsKeyedFrom :
      (timeout : ℕ) (kept ps : List PacketToValidate) (results : ProbeMap) (w : env.World)
      → IsKeyedFrom 0 results
      → IsKeyedFrom 0 (expire_loop env timeout kept ps results w).results
  unfolding expire_loop
  expire_loop-IsKeyedFrom timeout kept [] results w h = h
  expire_loop-IsKeyedFrom timeout kept (p ∷ ps) results w h =
      elim (Bool-cases (ltb (get_time_left env p.sent_at timeout w).0 min_time_wait_for_response)) [
        | inl y ↦
            rw (y, expire_loop)
              (expire_loop-IsKeyedFrom timeout kept ps _ _
                (push_result-IsKeyedFrom 0 p.ttl _ results (omega arith) h))
        | inr n ↦
            rw (n, expire_loop) (expire_loop-IsKeyedFrom timeout (kept ++ (p ∷ [])) ps results _ h)
      ]

  pub locked_section-IsKeyedFrom :
      (timeout : ℕ) (resp : Option ResponseInfo) (buffer : Bytes) (s s' : Locked env.World)
      → locked_section env timeout resp buffer s ≡ ok s'
      → IsKeyedFrom 0 s.results
      → IsKeyedFrom 0 s'.results
  unfolding locked_section accept_response
  locked_section-IsKeyedFrom timeout none buffer s s' e h =
      subst (λ (x : Locked env.World). IsKeyedFrom 0 x.results) (ok-injective _ _ e)
        (expire_loop-IsKeyedFrom timeout [] s.packets s.results s.world h)
  locked_section-IsKeyedFrom timeout (some info) buffer s s' e h =
      let (m, f, g) = first_call (accept_response env (some info) buffer s) e in
      let (found, _, k) = first_call (find_valid info buffer s.packets) f in
      subst (λ (x : Locked env.World). IsKeyedFrom 0 x.results) (ok-injective _ _ g)
        (expire_loop-IsKeyedFrom timeout [] m.packets m.results m.world (
          subst (λ (x : Locked env.World). IsKeyedFrom 0 x.results) (ok-injective _ _ k)
            (record_success-IsKeyedFrom info.client s found h)))

pub transform-IsSortedFrom :
    (bound : ℕ) (entries : ProbeMap)
    → IsKeyedFrom bound entries
    → IsSortedFrom bound (transform entries)
unfolding transform
transform-IsSortedFrom bound [] h = tt
transform-IsSortedFrom bound ((key, results) ∷ entries) (b, l, h) =
    (b, transform-IsSortedFrom (suc key) entries h)

insert_by_ttl-front :
    (r : TracerouteResult) (rest : List TracerouteResult)
    → IsSortedFrom (suc r.ttl) rest
    → insert_by_ttl r rest ≡ r ∷ rest
unfolding insert_by_ttl
insert_by_ttl-front r [] h = refl
insert_by_ttl-front r (s ∷ rest) (b, h) = ground arith

-- Sorting a list whose times to live increase changes nothing.
pub sort_by_ttl-sorted :
    (bound : ℕ) (results : List TracerouteResult)
    → IsSortedFrom bound results
    → sort_by_ttl results ≡ results
unfolding sort_by_ttl
sort_by_ttl-sorted bound [] h = refl
sort_by_ttl-sorted bound (r ∷ rest) (b, h) =
    ap (insert_by_ttl r) (sort_by_ttl-sorted (suc r.ttl) rest h) ∙ insert_by_ttl-front r rest h

mod_add : (a b : ℕ) → (a % 2 ^ 32 + b) % 2 ^ 32 ≡ (a + b) % 2 ^ 32
mod_add a b = omega arith

current_size_from_lem :
    (total : ℕ) (entries : ProbeMap)
    → total < 2 ^ 32
    → current_size_from total entries ≡ (total + results_in entries) % 2 ^ 32
unfolding current_size_from
current_size_from_lem total [] h = omega arith
current_size_from_lem total ((key, results) ∷ entries) h =
    current_size_from_lem ((total + length results) % 2 ^ 32) entries (omega arith)
    ∙ mod_add (total + length results) (results_in entries)
    ∙ ap (λ n. n % 2 ^ 32) (omega arith)

-- The size that the loop counts is the number of results modulo 2^32.
pub get_current_size_lem :
    (entries : ProbeMap) → get_current_size entries ≡ results_in entries % 2 ^ 32
unfolding get_current_size
get_current_size_lem entries =
    current_size_from_lem 0 entries (omega arith) ∙ ap (λ n. n % 2 ^ 32) (omega arith)
