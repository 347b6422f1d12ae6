-- ===== src/Sender/Hangup.antt =====
-- `tryReceiving` of a process whose standard input is closed.
use traceroute.Base.{
  ℕ, ◌<◌, ◌^◌, ◌≡◌, ◌≢◌, ◌⊎◌, inl, inr, refl, true, false, Bool-cases, ltb, ◌==◌, if◌then◌else◌,
  some, List, [], ◌∷◌, All, Bytes, length, ok, throw, recvfrom_failed, fd_unknown, arith,
}
use traceroute.Kernel.{Kernel, IsKernel, IsPolled, PollFd, pollin, is_negative, is_negative_size}
use traceroute.Sender.{
  SocketExt, DataSender, protocol_at, zero_entry, zero_entries, pollfds, find_ready, poll_any,
  get_any_socket_ready_to_receive, receive_from, try_receiving, make_data_sender,
}
use traceroute.Sender.Roles.{Given, receiving_fds}
use traceroute.Sender.Made.{make_data_sender-Given}

-- One of the entries is for descriptor 0.
abbrev pub AsksZero : List PollFd → Type 0
AsksZero [] = ⊥
AsksZero (p ∷ ps) = (p.fd ≡ 0) ⊎ AsksZero ps

-- The standard input is closed: an entry for descriptor 0 gets an event whatever it asks for, and
-- is counted.
pub record IsHungUp (k : Kernel) : Type 0 where
  pub event :
      (ps : List PollFd) (t : ℕ) (w : k.World)
      → All (λ (q : PollFd). q.fd ≡ 0 → q.revents ≢ 0) (k.poll ps t w).1
  pub counted :
      (ps : List PollFd) (t : ℕ) (w : k.World)
      → AsksZero ps
      → (0 < (k.poll ps t w).0) × ((k.poll ps t w).0 < 2 ^ 31)

first-find_ready :
    (p : PollFd) (ps polled : List PollFd)
    → IsPolled (p ∷ ps) polled
    → p.fd ≡ 0
    → All (λ (q : PollFd). q.fd ≡ 0 → q.revents ≢ 0) polled
    → find_ready polled ≡ some 0
unfolding find_ready
first-find_ready p ps [] h z e = elim h [ ]
first-find_ready p ps (q ∷ qs) (same, _) z (e, _) =
    let zero_fd : q.fd ≡ 0 = cc (same, z) in
    let event : q.revents ≢ 0 = e zero_fd in
    let ready : (q.revents == 0) ≡ false = ground (arith, event) in rw (ready, zero_fd) refl

protocol_at-unknown :
    (fd : ℕ) (known : List (ℕ × ℕ))
    → ((v : ℕ) → protocol_at fd known ≢ ok v)
    → protocol_at fd known ≡ throw fd_unknown
unfolding protocol_at
protocol_at-unknown fd [] h = refl
protocol_at-unknown fd ((key, value) ∷ rest) h = elim (Bool-cases (fd == key)) [
  | inl y ↦ absurd (h value (rw y refl))
  | inr n ↦ rw n (protocol_at-unknown fd rest (λ v e. h v (rw n e)))
]

not-Given :
    (v : ℕ) (sockets : List SocketExt)
    → All (λ (s : SocketExt). s.socket.fd ≢ 0) sockets
    → Given 0 v sockets
    → ⊥
not-Given v [] h g = g
not-Given v (s ∷ rest) (n, h) (inl (e, _)) = n e
not-Given v (s ∷ rest) (n, h) (inr g) = not-Given v rest h g

module _ (k : Kernel) (laws : IsKernel k) (closed : IsHungUp k) where
  poll_any-hangup :
      (fd : ℕ) (fds : List ℕ) (events t : ℕ) (w : k.World)
      → poll_any k (fd ∷ fds) events t w ≡ ok (some 0, (k.poll (pollfds events (fd ∷ fds)) t w).2)
  unfolding poll_any pollfds zero_entries
  poll_any-hangup fd fds events t w =
      let ps = pollfds events (fd ∷ fds) in
      let (pos, small) = closed.counted ps t w (inl refl) in
      let kept : is_negative (k.poll ps t w).0 ≡ false = ground (arith, small) in
      let some_ready : ltb 0 (k.poll ps t w).0 ≡ true = ground (arith, pos) in
      let picked : find_ready (k.poll ps t w).1 ≡ some 0 =
        first-find_ready zero_entry _ _ (laws.poll_fds ps t w) refl (closed.event ps t w) in
      rw (kept, some_ready, picked) refl

  -- On a kernel that keeps `IsKernel`: if `poll` reports an event on descriptor 0 whenever it is
  -- asked about it, as it does for a closed standard input, then a sender that its constructor
  -- made of sockets, one of which receives and none of which has descriptor 0, never receives
  -- anything: each call of `tryReceiving` reads from descriptor 0, whatever is ready on the
  -- sockets, and throws, since the read fails or since no socket has that descriptor.
  pub try_receiving_hangup :
      (sockets : List SocketExt) (family : ℕ) (d : DataSender) (fd : ℕ) (fds : List ℕ)
      (buffer : Bytes) (t : ℕ) (w : k.World)
      → make_data_sender sockets family ≡ ok d
      → receiving_fds sockets ≡ fd ∷ fds
      → All (λ (s : SocketExt). s.socket.fd ≢ 0) sockets
      → try_receiving k d buffer t w ≡ (
          if is_negative_size
            (k.recvfrom 0 buffer (length buffer) (k.poll (pollfds pollin (fd ∷ fds)) t w).2).0
          then throw recvfrom_failed
          else throw fd_unknown)
  unfolding try_receiving get_any_socket_ready_to_receive receive_from
  try_receiving_hangup sockets family d fd fds buffer t w made receiving others =
      let (given, same) = make_data_sender-Given sockets family d made in
      let unknown =
        protocol_at-unknown 0 d.fd_to_protocol (λ v e. not-Given v sockets others (given 0 v e)) in
      rw (same, receiving, poll_any-hangup fd fds pollin t w, unknown) refl
