-- ===== src/Sender/Polling.antt =====
-- Which descriptor `Poll` picks.
use traceroute.Base.{
  ℕ, ◌≡◌, ◌⊎◌, inl, inr, Bool-cases, ltb, ◌==◌, none, some, List, [], ◌∷◌, ◌++◌, map, ok, throw,
  poll_failed, ap, ok-injective,
}
use traceroute.Kernel.{Kernel, IsKernel, IsPolled, PollFd, is_negative}
use traceroute.Sender.{zero_entries, entry, pollfds, find_ready, poll_any}

-- A number is in a list.
abbrev pub Listed : ℕ → List ℕ → Type 0
Listed n [] = ⊥
Listed n (m ∷ ms) = (n ≡ m) ⊎ Listed n ms

entries-find_ready :
    (events fd : ℕ) (fds : List ℕ) (polled : List PollFd)
    → IsPolled (map (entry events) fds) polled
    → find_ready polled ≡ some fd
    → Listed fd fds
unfolding find_ready
entries-find_ready events fd [] [] p e = cc
entries-find_ready events fd [] (q ∷ qs) p e = elim p [ ]
entries-find_ready events fd (f ∷ fds) [] p e = elim p [ ]
entries-find_ready events fd (f ∷ fds) (q ∷ qs) (same, p) e = elim (Bool-cases (q.revents == 0)) [
  | inl y ↦ inr (entries-find_ready events fd fds qs p (rw y at e))
  | inr n ↦ let e' : some q.fd ≡ some fd = rw n at e in inl (cc (e', same))
]

pollfds-find_ready :
    (events fd : ℕ) (zeros fds : List ℕ) (polled : List PollFd)
    → IsPolled (zero_entries zeros ++ map (entry events) fds) polled
    → find_ready polled ≡ some fd
    → (fd ≡ 0) ⊎ Listed fd fds
unfolding zero_entries find_ready
pollfds-find_ready events fd [] fds polled p e = inr (entries-find_ready events fd fds polled p e)
pollfds-find_ready events fd (z ∷ zs) fds [] p e = elim p [ ]
pollfds-find_ready events fd (z ∷ zs) fds (q ∷ qs) (same, p) e =
    elim (Bool-cases (q.revents == 0)) [
      | inl y ↦ pollfds-find_ready events fd zs fds qs p (rw y at e)
      | inr n ↦ let e' : some q.fd ≡ some fd = rw n at e in inl (cc (e', same))
    ]

module _ (k : Kernel) (laws : IsKernel k) where
  -- A descriptor that `Poll` of several returns is one of those that it was given, or 0.
  pub poll_any-Listed :
      (fds : List ℕ) (events timeout fd : ℕ) (w w' : k.World)
      → poll_any k fds events timeout w ≡ ok (some fd, w')
      → (fd ≡ 0) ⊎ Listed fd fds
  unfolding poll_any pollfds
  poll_any-Listed fds events timeout fd w w' e =
      let polled = laws.poll_fds (pollfds events fds) timeout w in
      elim (Bool-cases (is_negative (k.poll (pollfds events fds) timeout w).0)) [
        | inl y ↦ let e' : throw poll_failed ≡ ok (some fd, w') = rw y at e in cc e'
        | inr n ↦ elim (Bool-cases (ltb 0 (k.poll (pollfds events fds) timeout w).0)) [
          | inl y' ↦
              let e' : ok (
                find_ready (k.poll (pollfds events fds) timeout w).1,
                (k.poll (pollfds events fds) timeout w).2,
              )
                  ≡ ok (some fd, w') =
                rw (n, y') at e in
              pollfds-find_ready events fd fds fds _ polled (ap (λ r. r.0) (ok-injective _ _ e'))
          | inr n' ↦
              let e' : ok (none, (k.poll (pollfds events fds) timeout w).2) ≡ ok (some fd, w') =
                rw (n, n') at e in
              cc e'
        ]
      ]
