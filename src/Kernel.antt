-- ===== src/Kernel.antt =====
-- The system calls behind the sender and the sockets, as an interface over the state of the
-- machine. An `int` is its pattern of 32 bits and a `ssize_t` its pattern of 64 bits, so -1 is
-- the largest.
use traceroute.Base.{ℕ, ◌≤◌, ◌<◌, ◌^◌, ◌≡◌, Bool, leb, List, [], ◌∷◌, Bytes, length}
use traceroute.Address.{SocketAddress}

abbrev pub is_negative : ℕ → Bool
is_negative result = leb (2 ^ 31) result

abbrev pub is_negative_size : ℕ → Bool
is_negative_size result = leb (2 ^ 63) result

-- `pollfd`.
pub record PollFd : Type 0 where
  pub fd : ℕ
  pub events : ℕ
  pub revents : ℕ

abbrev pub pollin : ℕ
pollin = 1

abbrev pub pollout : ℕ
pollout = 4

-- The value of an option is the bytes that the call is given. `getsockname` is given the storage
-- and its length, and returns both as it leaves them. `recvfrom` is given the buffer and
-- returns it with the message at its front, then the sender's address.
pub record Kernel : Type 1 where
  pub World : Type 0
  pub socket : ℕ → ℕ → ℕ → World → ℕ × World
  pub setsockopt : ℕ → ℕ → ℕ → Bytes → World → ℕ × World
  pub bind : ℕ → SocketAddress → ℕ → World → ℕ × World
  pub connect : ℕ → SocketAddress → ℕ → World → ℕ × World
  pub getsockname : ℕ → SocketAddress → ℕ → World → ℕ × SocketAddress × ℕ × World
  pub close : ℕ → World → ℕ × World
  pub poll : List PollFd → ℕ → World → ℕ × List PollFd × World
  pub sendto : ℕ → Bytes → SocketAddress → ℕ → World → ℕ × World
  pub recvfrom : ℕ → Bytes → ℕ → World → ℕ × Bytes × SocketAddress × World
  pub now : World → ℕ × World

-- `poll` leaves the descriptors of its entries in place.
abbrev pub IsPolled : List PollFd → List PollFd → Type 0
IsPolled [] [] = Unit
IsPolled [] (q ∷ qs) = ⊥
IsPolled (p ∷ ps) [] = ⊥
IsPolled (p ∷ ps) (q ∷ qs) = (q.fd ≡ p.fd) × IsPolled ps qs

-- What the callers rely on: no call sets the clock back and `poll` takes time; a message does not
-- change the length of the buffer.
pub record IsKernel (k : Kernel) : Type 0 where
  pub time : k.World → ℕ
  pub now_reads : (w : k.World) → (time w ≤ (k.now w).0) × ((k.now w).0 ≤ time (k.now w).1)
  pub setsockopt_time :
      (fd level option : ℕ) (value : Bytes) (w : k.World)
      → time w ≤ time (k.setsockopt fd level option value w).1
  pub poll_time : (fds : List PollFd) (t : ℕ) (w : k.World) → time w < time (k.poll fds t w).2
  pub poll_fds : (fds : List PollFd) (t : ℕ) (w : k.World) → IsPolled fds (k.poll fds t w).1
  pub sendto_time :
      (fd : ℕ) (b : Bytes) (a : SocketAddress) (n : ℕ) (w : k.World)
      → time w ≤ time (k.sendto fd b a n w).1
  pub recvfrom_time :
      (fd : ℕ) (b : Bytes) (n : ℕ) (w : k.World) → time w ≤ time (k.recvfrom fd b n w).3
  pub recvfrom_buffer :
      (fd : ℕ) (b : Bytes) (n : ℕ) (w : k.World) → length (k.recvfrom fd b n w).1 ≡ length b
