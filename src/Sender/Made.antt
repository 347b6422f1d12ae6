-- ===== src/Sender/Made.antt =====
-- The constructor of `DataSender`: the sender that it makes, and when it throws.
use traceroute.Base.{
  ℕ, ◌≡◌, ◌⊎◌, inl, inr, sym, ◌∙◌, List, [], ok, throw, ok-injective, subst, fd_unknown,
  second_sending_socket,
}
use traceroute.Sender.{SocketExt, DataSender, protocol_at, make_data_sender}
use traceroute.Sender.Roles.{
  receiving_fds, sending_fds, IsClash, last_of, last_protocol, known, Given, last_protocol-Given,
  known-some,
}
use traceroute.Sender.Extension.{add_sockets_lem}

abbrev no_sockets : ℕ → DataSender
no_sockets domain = record {
  fd_to_protocol = [];
  receiving_sockets = [];
  sending_socket = 0;
  family = domain;
}

-- What the constructor makes of sockets: a sender for the family that sends on the last of them
-- that sends.
pub record IsMade (sockets : List SocketExt) (domain : ℕ) (d : DataSender) : Type 0 where
  pub no_clash : ¬ IsClash 0 (sending_fds sockets)
  pub sends : d.sending_socket ≡ last_of 0 (sending_fds sockets)
  pub receives : d.receiving_sockets ≡ receiving_fds sockets
  pub protocols :
      (fd : ℕ)
      → protocol_at fd d.fd_to_protocol ≡ known (throw fd_unknown) (last_protocol fd sockets)
  pub for_family : d.family ≡ domain

-- The constructor of `DataSender` throws exactly when a socket that sends has a descriptor that
-- is not 0 and another socket that sends behind it. Otherwise the sender that it makes sends on
-- the last of the sockets that send, or on descriptor 0 if there is none; receives on those that
-- receive, in their order; knows for a descriptor the protocol of the last socket that has it,
-- and throws for one that no socket has; and has the family that was asked for. So of two sending
-- sockets the second is not noticed if the first has descriptor 0.
pub make_data_sender-IsMade :
    (sockets : List SocketExt) (domain : ℕ)
    → ((make_data_sender sockets domain ≡ throw second_sending_socket)
        × IsClash 0 (sending_fds sockets))
      ⊎ ((d : DataSender) × (make_data_sender sockets domain ≡ ok d) × IsMade sockets domain d)
unfolding make_data_sender protocol_at
make_data_sender-IsMade sockets domain = elim (add_sockets_lem sockets (no_sockets domain)) [
  | inl (e, c) ↦ inl (e, c)
  | inr (d, e, h) ↦ inr (
    d,
    e,
    record {
      no_clash = h.no_clash;
      sends = h.sends;
      receives = h.receives;
      protocols = h.protocols;
      for_family = h.same_family;
    },
  )
]

pub make_data_sender-Given :
    (sockets : List SocketExt) (domain : ℕ) (d : DataSender)
    → make_data_sender sockets domain ≡ ok d
    → ((fd v : ℕ) → protocol_at fd d.fd_to_protocol ≡ ok v → Given fd v sockets)
      × (d.receiving_sockets ≡ receiving_fds sockets)
make_data_sender-Given sockets domain d e = elim (make_data_sender-IsMade sockets domain) [
  | inl (t, _) ↦ let never : throw second_sending_socket ≡ ok d = sym t ∙ e in cc never
  | inr (d', o, h) ↦
      let made = subst (IsMade sockets domain) (ok-injective d' d (sym o ∙ e)) h in
      (
        λ fd v f. last_protocol-Given fd v sockets (known-some v _ (sym (made.protocols fd) ∙ f)),
        made.receives,
      )
]
