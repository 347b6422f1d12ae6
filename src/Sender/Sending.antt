-- ===== src/Sender/Sending.antt =====
-- What `trySending` did when it returns true.
use traceroute.Base.{
  ℕ, ◌≡◌, ◌≢◌, inl, inr, refl, Bool, true, false, Bool-cases, ◌==◌, if◌then◌else◌, [], ◌∷◌, store32,
  ok, Ensures, returns, throws, Ensures-if, Ensures-map, Ensures-ok, Ensures-bind, ==_iff,
  ttl_not_set, family_of_address, poll_failed, sendto_failed, arith,
}
use traceroute.Address.{family, size, af_inet}
use traceroute.Packet.{Packet, serialize, get_destination_address}
use traceroute.Kernel.{Kernel, pollout, is_negative, is_negative_size}
use traceroute.Sender.{DataSender, entry, set_ttl, poll_one, send_to, try_sending}

module _ (k : Kernel) where
  -- The three calls of a sender for a packet, each in the world that the one before left.
  abbrev pub option_call : DataSender → ℕ → k.World → ℕ × k.World
  option_call d ttl w =
      k.setsockopt d.sending_socket (if d.family == af_inet then 0 else 41)
        (if d.family == af_inet then 2 else 16) (store32 ttl []) w

  abbrev pub poll_world : DataSender → ℕ → ℕ → k.World → k.World
  poll_world d ttl timeout w =
      (k.poll (entry pollout d.sending_socket ∷ []) timeout (option_call d ttl w).1).2

  abbrev pub send_call : DataSender → Packet → ℕ → ℕ → k.World → ℕ × k.World
  send_call d packet ttl timeout w =
      k.sendto d.sending_socket (serialize packet) (get_destination_address packet)
        (size (get_destination_address packet)) (poll_world d ttl timeout w)

  abbrev pub IsSent : DataSender → Packet → ℕ → ℕ → k.World → k.World → Type 0
  IsSent d packet ttl timeout w w' =
      (is_negative (option_call d ttl w).0 ≡ false)
      × (d.family ≡ family (get_destination_address packet))
      × (is_negative_size (send_call d packet ttl timeout w).0 ≡ false)
      × ((send_call d packet ttl timeout w).0 ≢ 0)
      × (w' ≡ (send_call d packet ttl timeout w).1)

  poll_one-world :
      (d : DataSender) (ttl timeout : ℕ) (w : k.World)
      → Ensures
          (λ (r : Bool × k.World). r.1 ≡ poll_world d ttl timeout w)
          (poll_one k d.sending_socket pollout timeout (option_call d ttl w).1)
  unfolding poll_one
  poll_one-world d ttl timeout w = Ensures-if _ (throws poll_failed) (returns _ refl)

  send_to-Taken :
      (d : DataSender) (packet : Packet) (ttl timeout : ℕ) (w w₂ : k.World)
      → w₂ ≡ poll_world d ttl timeout w
      → Ensures
          (λ (r : Bool × k.World).
            r.0 ≡ true
            → (is_negative_size (send_call d packet ttl timeout w).0 ≡ false)
              × ((send_call d packet ttl timeout w).0 ≢ 0)
              × (r.1 ≡ (send_call d packet ttl timeout w).1))
          (send_to k d packet w₂)
  unfolding send_to
  send_to-Taken d packet ttl timeout w w₂ e =
      elim (Bool-cases (is_negative_size (send_call d packet ttl timeout w).0)) [
        | inl y ↦ rw (e, y) (throws sendto_failed)
        | inr n ↦ rw (e, n) (returns _ (λ t. (refl, (λ z. ground arith), refl)))
      ]

  try_sending-Ensures :
      (d : DataSender) (packet : Packet) (ttl timeout : ℕ) (w : k.World)
      → Ensures
          (λ (r : Bool × k.World). r.0 ≡ true → IsSent d packet ttl timeout w r.1)
          (try_sending k d packet ttl timeout w)
  unfolding try_sending set_ttl poll_one send_to
  try_sending-Ensures d packet ttl timeout w =
      let same_family : ((d.family == family (get_destination_address packet)) ≡ true)
          → d.family ≡ family (get_destination_address packet) =
        (==_iff d.family (family (get_destination_address packet))).0 in
      elim (Bool-cases (is_negative (option_call d ttl w).0)) [
        | inl y ↦ rw y (throws ttl_not_set)
        | inr a ↦ elim (Bool-cases (d.family == family (get_destination_address packet))) [
          | inr n ↦ rw (a, n) (throws family_of_address)
          | inl b ↦
              rw (a, b)
                (Ensures-bind (poll_one-world d ttl timeout w) λ r e.
                  Ensures-if r.0
                    (Ensures-map (send_to-Taken d packet ttl timeout w r.1 e) (λ x h t.
                      let (whole, some_bytes, left) = h t in
                      (refl, same_family b, whole, some_bytes, left)))
                    (returns _ (λ t. cc t)))
        ]
      ]

  -- If `trySending` returns true, then the hop limit was set on the sending socket first, the
  -- packet's destination has the family of the sender, and the bytes of the packet were then
  -- handed to the kernel for that destination, which took some of them.
  pub try_sending-IsSent :
      (d : DataSender) (packet : Packet) (ttl timeout : ℕ) (w w' : k.World)
      → try_sending k d packet ttl timeout w ≡ ok (true, w')
      → IsSent d packet ttl timeout w w'
  try_sending-IsSent d packet ttl timeout w w' e =
      Ensures-ok (try_sending-Ensures d packet ttl timeout w) e refl
