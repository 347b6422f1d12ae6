-- ===== src/Sender/Extension.antt =====
-- The loop of the constructor of `DataSender` over the sockets.
use traceroute.Base.{
  ℕ, ◌≡◌, ◌⊎◌, inl, inr, refl, sym, ◌∙◌, ap, true, false, Bool-cases, ==_iff, ◌==◌, if◌then◌else◌,
  List, [], ◌∷◌, ◌++◌, Option, none, some, Outcome, ok, throw, second_sending_socket, append-nil,
  append_assoc, arith,
}
use traceroute.Sender.{
  SocketExt, receive_role, send_role, has_role, DataSender, set_protocol, protocol_at, add_socket,
  add_sockets,
}
use traceroute.Sender.Roles.{receiving_fds, sending_fds, IsClash, last_of, last_protocol, known}

-- What the constructor, with the sockets that are left, makes of a sender.
pub record IsExtended (sockets : List SocketExt) (d d' : DataSender) : Type 0 where
  pub no_clash : ¬ IsClash d.sending_socket (sending_fds sockets)
  pub sends : d'.sending_socket ≡ last_of d.sending_socket (sending_fds sockets)
  pub receives : d'.receiving_sockets ≡ d.receiving_sockets ++ receiving_fds sockets
  pub protocols :
      (fd : ℕ)
      → protocol_at fd d'.fd_to_protocol
        ≡ known (protocol_at fd d.fd_to_protocol) (last_protocol fd sockets)
  pub same_family : d'.family ≡ d.family

abbrev pub IsExtension : List SocketExt → DataSender → Type 0
IsExtension sockets d =
    ((add_sockets sockets d ≡ throw second_sending_socket)
      × IsClash d.sending_socket (sending_fds sockets))
    ⊎ ((d' : DataSender) × (add_sockets sockets d ≡ ok d') × IsExtended sockets d d')

protocol_at-set_protocol :
    (fd key protocol : ℕ) (m : List (ℕ × ℕ))
    → protocol_at fd (set_protocol key protocol m)
      ≡ (if fd == key then ok protocol else protocol_at fd m)
unfolding protocol_at set_protocol
protocol_at-set_protocol fd key protocol [] = refl
protocol_at-set_protocol fd key protocol ((k, x) ∷ rest) =
    ground (arith, protocol_at-set_protocol fd key protocol rest)

-- The sender behind the first socket.
abbrev added : SocketExt → DataSender → DataSender
added s d = record {
  fd_to_protocol = set_protocol s.socket.fd s.socket.protocol d.fd_to_protocol;
  receiving_sockets =
      if has_role s.role receive_role
      then d.receiving_sockets ++ (s.socket.fd ∷ [])
      else d.receiving_sockets;
  sending_socket = if has_role s.role send_role then s.socket.fd else d.sending_socket;
  family = d.family;
}

known-cons :
    (s : SocketExt) (fd : ℕ) (before : Outcome ℕ) (later : Option ℕ)
    → known (if fd == s.socket.fd then ok s.socket.protocol else before) later
      ≡ known before (elim later [
        | some protocol ↦ some protocol
        | none ↦ if fd == s.socket.fd then some s.socket.protocol else none
      ])
known-cons s fd before (some protocol) = refl
known-cons s fd before none = elim (Bool-cases (fd == s.socket.fd)) [
  | inl y ↦ rw y refl
  | inr n ↦ rw n refl
]

receives-cons :
    (s : SocketExt) (rest : List SocketExt) (fds : List ℕ)
    → (if has_role s.role receive_role then fds ++ (s.socket.fd ∷ []) else fds)
        ++ receiving_fds rest
      ≡ fds ++ receiving_fds (s ∷ rest)
receives-cons s rest fds = elim (Bool-cases (has_role s.role receive_role)) [
  | inl y ↦ rw y (append_assoc fds (s.socket.fd ∷ []) (receiving_fds rest))
  | inr n ↦ rw n refl
]

-- The first socket is taken, and then the others.
taken :
    (s : SocketExt) (rest : List SocketExt) (d : DataSender)
    → add_socket s d ≡ ok (added s d)
    → (IsClash (added s d).sending_socket (sending_fds rest)
        → IsClash d.sending_socket (sending_fds (s ∷ rest)))
    → (IsClash d.sending_socket (sending_fds (s ∷ rest))
        → IsClash (added s d).sending_socket (sending_fds rest))
    → last_of d.sending_socket (sending_fds (s ∷ rest))
      ≡ last_of (added s d).sending_socket (sending_fds rest)
    → IsExtension rest (added s d)
    → IsExtension (s ∷ rest) d
unfolding add_sockets
taken s rest d e to from l (inl (throws_, c)) = inl (rw e throws_, to c)
taken s rest d e to from l (inr (d', made, h)) = inr (
  d',
  rw e made,
  record {
    no_clash = λ c. h.no_clash (from c);
    sends = h.sends ∙ sym l;
    receives = h.receives ∙ receives-cons s rest d.receiving_sockets;
    protocols = λ fd.
        h.protocols fd
        ∙ ap (λ before. known before (last_protocol fd rest))
            (protocol_at-set_protocol fd s.socket.fd s.socket.protocol d.fd_to_protocol)
        ∙ known-cons s fd (protocol_at fd d.fd_to_protocol) (last_protocol fd rest);
    same_family = h.same_family;
  },
)

passes :
    (s : SocketExt) (d : DataSender)
    → has_role s.role send_role ≡ false
    → add_socket s d ≡ ok (added s d)
unfolding add_socket has_role
passes s d n = rw n refl

becomes :
    (s : SocketExt) (d : DataSender)
    → has_role s.role send_role ≡ true
    → (d.sending_socket == 0) ≡ true
    → add_socket s d ≡ ok (added s d)
unfolding add_socket has_role
becomes s d y z = rw (y, z) refl

refused :
    (s : SocketExt) (d : DataSender)
    → has_role s.role send_role ≡ true
    → (d.sending_socket == 0) ≡ false
    → add_socket s d ≡ throw second_sending_socket
unfolding add_socket has_role
refused s d y z = rw (y, z) refl

pub add_sockets_lem : (sockets : List SocketExt) (d : DataSender) → IsExtension sockets d
unfolding add_sockets
add_sockets_lem [] d = inr (
  d,
  refl,
  record {
    no_clash = λ c. c;
    sends = refl;
    receives = sym (append-nil d.receiving_sockets);
    protocols = λ fd. refl;
    same_family = refl;
  },
)
add_sockets_lem (s ∷ rest) d = elim (Bool-cases (has_role s.role send_role)) [
  | inr n ↦
      taken s rest d (passes s d n) (rw n (λ c. c)) (rw n (λ c. c)) (rw n refl)
        (add_sockets_lem rest (added s d))
  | inl y ↦ elim (Bool-cases (d.sending_socket == 0)) [
    | inl z ↦
        taken s rest d (becomes s d y z) (rw y inr)
          (rw y (λ c. elim c [
            | inl n ↦ absurd (n ((==_iff d.sending_socket 0).0 z))
            | inr later ↦ later
          ]))
          (rw y refl) (add_sockets_lem rest (added s d))
    | inr nz ↦ inl (rw (refused s d y nz) refl, rw y (inl (λ e. ground arith)))
  ]
]
