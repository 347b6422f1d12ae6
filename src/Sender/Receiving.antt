-- ===== src/Sender/Receiving.antt =====
-- `tryReceiving` of a sender that its constructor made.
use traceroute.Base.{
  ℕ, false, ◌≡◌, ◌⊎◌, inl, inr, ap, ◌∙◌, refl, Bool-cases, Option, none, some, Bytes, length, List,
  ok, throw, first_call, ok-injective, subst, recvfrom_failed,
}
use traceroute.Address.{SocketAddress}
use traceroute.Response.{ResponseInfo}
use traceroute.Kernel.{Kernel, IsKernel, is_negative_size}
use traceroute.Sender.{
  SocketExt, DataSender, protocol_at, receive_from, get_any_socket_ready_to_receive, try_receiving,
  make_data_sender,
}
use traceroute.Sender.Polling.{Listed, poll_any-Listed}
use traceroute.Sender.Roles.{Given, receiving_fds}
use traceroute.Sender.Made.{make_data_sender-Given}

abbrev protocol_of : ℕ → Option ResponseInfo → ℕ
protocol_of otherwise none = otherwise
protocol_of otherwise (some info) = info.protocol

abbrev size_of : ℕ → Option ResponseInfo → ℕ
size_of otherwise none = otherwise
size_of otherwise (some info) = info.size

abbrev named_sender : SocketAddress → Option ResponseInfo → SocketAddress
named_sender otherwise none = otherwise
named_sender otherwise (some info) = info.client

-- The kernel handed out a message of a descriptor: it left the bytes, named the sender, and told
-- a size that is not negative.
abbrev pub IsRead : (k : Kernel) → ℕ → Bytes → k.World → ResponseInfo → Bytes → k.World → Type 0
IsRead k fd before w info after w' =
    (is_negative_size info.size ≡ false)
    × (k.recvfrom fd before (length before) w ≡ (info.size, after, info.client, w'))

receive_from-IsRead :
    (k : Kernel) (d : DataSender) (fd : Option ℕ) (buffer b : Bytes) (w w' : k.World)
    (info : ResponseInfo)
    → receive_from k d fd buffer w ≡ ok (some info, b, w')
    → (n : ℕ) × (fd ≡ some n)
      × (protocol_at n d.fd_to_protocol ≡ ok info.protocol)
      × IsRead k n buffer w info b w'
unfolding receive_from
receive_from-IsRead k d none buffer b w w' info e = cc
receive_from-IsRead k d (some n) buffer b w w' info e =
    elim (Bool-cases (is_negative_size (k.recvfrom n buffer (length buffer) w).0)) [
      | inl y ↦ let e' : throw recvfrom_failed ≡ ok (some info, b, w') = rw y at e in cc e'
      | inr m ↦
          let (p, f, g) = first_call (protocol_at n d.fd_to_protocol) (rw m at e) in
          let same = ok-injective _ _ g in
          (
            n,
            refl,
            f ∙ ap (λ (r : Option ResponseInfo × Bytes × k.World). ok (protocol_of p r.0)) same,
            (
              subst (λ size. is_negative_size size ≡ false)
                  (ap
                    (λ (r : Option ResponseInfo × Bytes × k.World).
                      size_of (k.recvfrom n buffer (length buffer) w).0 r.0)
                    same)
                  m,
              ap
                  (λ (r : Option ResponseInfo × Bytes × k.World). (
                    size_of (k.recvfrom n buffer (length buffer) w).0 r.0,
                    r.1,
                    named_sender (k.recvfrom n buffer (length buffer) w).2 r.0,
                    r.2,
                  ))
                  same,
            ),
          )
    ]

module _ (k : Kernel) (laws : IsKernel k) where
  -- A response of a sender on given sockets has the protocol of one of them, the one whose
  -- descriptor is read: one that receives, or descriptor 0. Its sender, its size and its bytes
  -- are what the kernel handed out for that descriptor.
  pub try_receiving-Given :
      (sockets : List SocketExt) (family timeout : ℕ) (d : DataSender) (buffer b : Bytes)
      (w w' : k.World) (info : ResponseInfo)
      → make_data_sender sockets family ≡ ok d
      → try_receiving k d buffer timeout w ≡ ok (some info, b, w')
      → (fd : ℕ) × Given fd info.protocol sockets
        × ((fd ≡ 0) ⊎ Listed fd (receiving_fds sockets))
        × ((polled : k.World) × IsRead k fd buffer polled info b w')
  unfolding try_receiving get_any_socket_ready_to_receive
  try_receiving-Given sockets family timeout d buffer b w w' info m e =
      let (given, receiving) = make_data_sender-Given sockets family d m in
      let ((fd, w₁), polled, rest) = first_call (get_any_socket_ready_to_receive k d timeout w) e in
      let (n, is_n, protocol, read) = receive_from-IsRead k d fd buffer b w₁ w' info rest in
      (
        n,
        given n info.protocol protocol,
        subst (λ fds. (n ≡ 0) ⊎ Listed n fds) receiving
            (poll_any-Listed k laws d.receiving_sockets _ timeout n w w₁
              (polled ∙ ap (λ o. ok (o, w₁)) is_n)),
        (w₁, read),
      )
