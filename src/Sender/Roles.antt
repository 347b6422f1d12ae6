-- ===== src/Sender/Roles.antt =====
-- What the sockets given to the constructor of `DataSender` are for.
use traceroute.Base.{
  ℕ, ◌≡◌, ◌≢◌, ◌⊎◌, inl, inr, ◌==◌, if◌then◌else◌, List, [], ◌∷◌, Option, none, some, Outcome, ok,
  throw, fd_unknown, arith,
}
use traceroute.Sender.{SocketExt, receive_role, send_role, has_role}

-- The descriptors of the sockets with a role, in their order.
abbrev pub role_fds : ℕ → List SocketExt → List ℕ
role_fds role [] = []
role_fds role (s ∷ rest) =
    if has_role s.role role then s.socket.fd ∷ role_fds role rest else role_fds role rest

abbrev pub receiving_fds : List SocketExt → List ℕ
receiving_fds sockets = role_fds receive_role sockets

abbrev pub sending_fds : List SocketExt → List ℕ
sending_fds sockets = role_fds send_role sockets

-- Of a descriptor and those behind it, one that is not 0 has another behind it.
abbrev pub IsClash : ℕ → List ℕ → Type 0
IsClash fd [] = ⊥
IsClash fd (next ∷ rest) = (fd ≢ 0) ⊎ IsClash next rest

abbrev pub last_of : ℕ → List ℕ → ℕ
last_of fd [] = fd
last_of fd (next ∷ rest) = last_of next rest

-- One of the sockets has this descriptor and this protocol.
abbrev pub Given : ℕ → ℕ → List SocketExt → Type 0
Given fd protocol [] = ⊥
Given fd protocol (s ∷ rest) =
    ((s.socket.fd ≡ fd) × (s.socket.protocol ≡ protocol)) ⊎ Given fd protocol rest

-- The protocol of the last socket with a descriptor.
abbrev pub last_protocol : ℕ → List SocketExt → Option ℕ
last_protocol fd [] = none
last_protocol fd (s ∷ rest) = elim (last_protocol fd rest) [
  | some protocol ↦ some protocol
  | none ↦ if fd == s.socket.fd then some s.socket.protocol else none
]

abbrev pub known : Outcome ℕ → Option ℕ → Outcome ℕ
known before none = before
known before (some protocol) = ok protocol

Given-cons :
    (fd v : ℕ) (s : SocketExt) (rest : List SocketExt) (later : Option ℕ)
    → (later ≡ some v → Given fd v rest)
    → (elim later [
      | some protocol ↦ some protocol
      | none ↦ if fd == s.socket.fd then some s.socket.protocol else none
    ])
      ≡ some v
    → Given fd v (s ∷ rest)
Given-cons fd v s rest (some protocol) ih e = inr (ih e)
Given-cons fd v s rest none ih e = inl (ground arith)

pub last_protocol-Given :
    (fd v : ℕ) (sockets : List SocketExt) → last_protocol fd sockets ≡ some v → Given fd v sockets
last_protocol-Given fd v [] e = cc
last_protocol-Given fd v (s ∷ rest) e =
    Given-cons fd v s rest (last_protocol fd rest) (last_protocol-Given fd v rest) e

pub known-some : (v : ℕ) (found : Option ℕ) → known (throw fd_unknown) found ≡ ok v → found ≡ some v
known-some v (some protocol) e = cc
known-some v none e = cc
