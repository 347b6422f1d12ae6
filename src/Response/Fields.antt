-- ===== src/Response/Fields.antt =====
-- What an answer that is accepted says of the packet.
use traceroute.Base.{
  subst, ℕ, ◌+◌, ◌-◌, ◌%◌, ◌^◌, ◌≡◌, refl, sym, ◌∙◌, ap, Bool, true, false, Bool-cases, inl, inr,
  ◌==◌, ◌||◌, ==_iff, if◌then◌else◌, Bytes, Outcome, ok, throw, undefined, out_of_fuel, ◌>>=◌,
  first_call, ok-injective, ntohl, arith,
}
use traceroute.Address.{SocketAddress, address_eq}
use traceroute.Header.{IcmpHeader, icmp_id, tcp_seq, tcp_ack_seq}
use traceroute.Packet.{IcmpPacket, TcpPacket}
use traceroute.Response.{
  ResponseInfo, Validator, validate_all, validator_is_valid, is_ip_header_present, skip_ip_header,
  get_icmp_type, advance_to_quoted, icmp_fields, icmp_to_tcp_fields, tcp_to_tcp_fields,
  validate_echo_reply, validate_session, validate_icmp_time_exceeded, validate_same_sequence,
  validate_tcp_time_exceeded, validate_dest_unreach, icmp_echoreply, icmp6_echo_reply,
}

-- What a validator sees of a message, whatever the packet.
shown : ResponseInfo → Bytes → Outcome (ResponseInfo × Bytes)
shown info response = do
  present ← is_ip_header_present info response
  if present then skip_ip_header info response else ok (info, response)

through :
    {S : Type 0} (m : Outcome Bool) (skipped : Outcome S) (bare : S) (next : S → Outcome Bool)
    → (m >>= (λ b. if b then skipped >>= next else next bare))
      ≡ ((m >>= (λ b. if b then skipped else ok bare)) >>= next)
through (ok true) skipped bare next = refl
through (ok false) skipped bare next = refl
through (throw e) skipped bare next = refl
through undefined skipped bare next = refl
through out_of_fuel skipped bare next = refl

shown_lem :
    (v : Validator) (info : ResponseInfo) (response : Bytes)
    → validator_is_valid v info response ≡ (shown info response >>= λ s. validate_all v s.0 s.1)
unfolding validator_is_valid shown
shown_lem v info response =
    through (is_ip_header_present info response) (skip_ip_header info response) (info, response)
      (λ s. validate_all v s.0 s.1)

-- Of two branches one of which refuses, the other was taken.
pub taken : (b : Bool) (m : Outcome Bool) → (if b then m else ok false) ≡ ok true → m ≡ ok true
taken true m e = e
taken false m e = cc

validate_all-fields :
    (v : Validator) (info : ResponseInfo) (response : Bytes)
    → validate_all v info response ≡ ok true
    → v.validate_fields info response ≡ ok true
unfolding validate_all
validate_all-fields v info response e =
    taken (v.validate_size info.size) _ (taken (v.validate_protocol info.protocol) _ e)

-- Two validators that accept a message look at the same fields of it.
pub both_fields :
    (v v' : Validator) (info : ResponseInfo) (response : Bytes)
    → validator_is_valid v info response ≡ ok true
    → validator_is_valid v' info response ≡ ok true
    → (s : ResponseInfo × Bytes) × (v.validate_fields s.0 s.1 ≡ ok true)
      × (v'.validate_fields s.0 s.1 ≡ ok true)
both_fields v v' info response e e' =
    let (s, f, k) = first_call (shown info response) (sym (shown_lem v info response) ∙ e) in
    let (s', f', k') = first_call (shown info response) (sym (shown_lem v' info response) ∙ e') in
    let same : s' ≡ s = ok-injective _ _ (sym f' ∙ f) in
    (
      s,
      validate_all-fields v s.0 s.1 k,
      validate_all-fields v' s.0 s.1
          (subst (λ (x : ResponseInfo × Bytes). validate_all v' x.0 x.1 ≡ ok true) same k'),
    )

-- The id that an answer to an echo request is judged by.
pub answer_id : Bytes → Outcome ℕ
answer_id response = do
  type ← get_icmp_type response
  if type == icmp_echoreply || type == icmp6_echo_reply
      then icmp_id response
      else advance_to_quoted response >>= icmp_id

validate_session-id :
    (response : Bytes) (echo : IcmpHeader)
    → validate_session response echo ≡ ok true
    → icmp_id response ≡ ok echo.id
unfolding validate_session
validate_session-id response echo e =
    let (id, f, k) = first_call (icmp_id response) e in
    f ∙ ap ok ((==_iff id echo.id).0 (ok-injective _ _ k))

echo_reply-id :
    (packet : IcmpPacket) (client : SocketAddress) (response : Bytes)
    → validate_echo_reply response packet client ≡ ok true
    → icmp_id response ≡ ok packet.icmp_header.id
unfolding validate_echo_reply
echo_reply-id packet client response e =
    validate_session-id response packet.icmp_header
      (taken (address_eq client packet.destination_address) _ e)

time_exceeded-id :
    (packet : IcmpPacket) (response : Bytes)
    → validate_icmp_time_exceeded response packet ≡ ok true
    → (advance_to_quoted response >>= icmp_id) ≡ ok packet.icmp_header.id
unfolding validate_icmp_time_exceeded
time_exceeded-id packet response e =
    let (quoted, f, k) = first_call (advance_to_quoted response) e in
    rw f (validate_session-id quoted packet.icmp_header k)

pub icmp_fields-id :
    (packet : IcmpPacket) (info : ResponseInfo) (response : Bytes)
    → icmp_fields packet info response ≡ ok true
    → answer_id response ≡ ok packet.icmp_header.id
unfolding icmp_fields answer_id validate_echo_reply validate_icmp_time_exceeded
icmp_fields-id packet info response e =
    let (type, f, k) = first_call (get_icmp_type response) e in
    elim (Bool-cases (type == icmp_echoreply || type == icmp6_echo_reply)) [
      | inl y ↦ rw (f, y) (echo_reply-id packet info.client response (rw y at k))
      | inr n ↦ rw (f, n) (time_exceeded-id packet response (taken _ _ (rw n at k)))
    ]

-- The sequence number that an ICMP message for a TCP packet is judged by, and the one that a
-- segment acknowledges.
pub answer_seq : Bytes → Outcome ℕ
answer_seq response = advance_to_quoted response >>= tcp_seq

pub acknowledged : Bytes → Outcome ℕ
acknowledged response = do ack ← tcp_ack_seq response; ok ((ntohl ack + 2 ^ 32 - 1) % 2 ^ 32)

tcp_time_exceeded-seq :
    (packet : TcpPacket) (response : Bytes)
    → validate_tcp_time_exceeded response packet ≡ ok true
    → answer_seq response ≡ ok packet.tcp_header.seq
unfolding validate_tcp_time_exceeded validate_same_sequence answer_seq
tcp_time_exceeded-seq packet response e =
    let (quoted, f, k) = first_call (advance_to_quoted response) e in
    let (seq, g, l) = first_call (tcp_seq quoted) k in
    rw (f, g) (ap ok ((==_iff seq packet.tcp_header.seq).0 (ok-injective _ _ l)))

pub icmp_to_tcp_fields-seq :
    (packet : TcpPacket) (info : ResponseInfo) (response : Bytes)
    → icmp_to_tcp_fields packet info response ≡ ok true
    → answer_seq response ≡ ok packet.tcp_header.seq
unfolding icmp_to_tcp_fields validate_dest_unreach
icmp_to_tcp_fields-seq packet info response e =
    let (type, f, k) = first_call (get_icmp_type response) e in
    tcp_time_exceeded-seq packet response (ground arith)

pub tcp_to_tcp_fields-seq :
    (packet : TcpPacket) (info : ResponseInfo) (response : Bytes)
    → tcp_to_tcp_fields packet info response ≡ ok true
    → acknowledged response ≡ ok (ntohl packet.tcp_header.seq)
unfolding tcp_to_tcp_fields acknowledged
tcp_to_tcp_fields-seq packet info response e =
    let (ack, f, k) =
      first_call (tcp_ack_seq response)
        (taken (address_eq packet.destination_address info.client) _ e) in
    rw f (ap ok ((==_iff _ (ntohl packet.tcp_header.seq)).0 (ok-injective _ _ k)))
