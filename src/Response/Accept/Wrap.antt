-- ===== src/Response/Accept/Wrap.antt =====
-- IP headers before a message, and what the validators do with them.
use traceroute.Base.{
  ℕ, suc, ◌+◌, ◌-◌, ◌^◌, ◌≤◌, ◌<◌, ◌≡◌, ◌≢◌, ◌∙◌, true, false, ◌||◌, ◌==◌, leb, le→leb, ltb_of_le,
  Bytes, load8, ◌∷◌, ◌++◌, drop-append, length, ok, Option, none, some, arith,
}
use traceroute.Header.{IcmpHeader, serialize_icmp}
use traceroute.Response.{
  ResponseInfo, version, header_size, get_ip_header_size, is_ip_header_present, skip_size,
  skip_ip_header, advance_to_quoted, Validator, validate_all, validator_is_valid,
}

-- An IP header is its first byte and the others, as many as the first byte says: 4 * ihl in all
-- for version 4, and 40 for version 6.
abbrev pub IsIpHeader : ℕ → Bytes → Type 0
IsIpHeader b others = header_size b ≡ ok (suc (length others))

-- The header in front of a message, if there is one.
abbrev pub Outer : Type 0
Outer = Option (ℕ × Bytes)

abbrev pub wrap : Outer → Bytes → Bytes
wrap none payload = payload
wrap (some (b, others)) payload = b ∷ (others ++ payload)

abbrev pub outer_length : Outer → ℕ
outer_length none = 0
outer_length (some (b, others)) = suc (length others)

-- A bare message is not taken for one behind an IP header: its first byte, here `first`, has
-- another version in it.
abbrev pub IsOuter : Outer → ℕ → Type 0
IsOuter none first = (version first ≢ 4) × (version first ≢ 6)
IsOuter (some (b, others)) first = IsIpHeader b others

-- The message fits into what was received, which is a size_t.
abbrev pub IsReceived : Outer → ℕ → ResponseInfo → Type 0
IsReceived o n info = (1 ≤ n) × (outer_length o + n ≤ info.size) × (info.size < 2 ^ 64)

pub present_of_header : (b n : ℕ) → header_size b ≡ ok n → (version b == 4 || version b == 6) ≡ true
unfolding header_size
present_of_header b n h = ground arith

absent : (b : ℕ) → version b ≢ 4 → version b ≢ 6 → (version b == 4 || version b == 6) ≡ false
absent b h k = ground arith

skip_size_lem : (size n : ℕ) → n ≤ size → size < 2 ^ 64 → skip_size size n ≡ size - n
unfolding skip_size
skip_size_lem size n h k = omega arith

-- The validator sees the message alone, with the size that is left.
pub validator_is_valid-wrap :
    (v : Validator) (o : Outer) (info : ResponseInfo) (first n : ℕ) (payload : Bytes)
    → IsOuter o first
    → IsReceived o n info
    → validator_is_valid v info (wrap o (first ∷ payload))
      ≡ validate_all v (record info { size = info.size - outer_length o }) (first ∷ payload)
unfolding validator_is_valid is_ip_header_present load8
validator_is_valid-wrap v none info first n payload (h, k) r =
    rw (ltb_of_le info.size 1 (omega arith), absent first h k, zero_sub info.size)
  where
    zero_sub : (m : ℕ) → m - 0 ≡ m
    zero_sub m = omega arith
validator_is_valid-wrap v (some (b, others)) info first n payload h r =
    rw (ltb_of_le info.size 1 (omega arith), present_of_header b _ h)
      (unfold skip_ip_header get_ip_header_size in
        rw (
          h,
          drop-append others (first ∷ payload),
          skip_size_lem info.size (suc (length others)) (omega arith) (omega arith),
        ))

-- A message of the right protocol that is long enough is judged by its fields.
validate_all_fields :
    (v : Validator) (info : ResponseInfo) (p : Bytes)
    → v.validate_protocol info.protocol ≡ true
    → v.validate_size info.size ≡ true
    → validate_all v info p ≡ v.validate_fields info p
unfolding validate_all
validate_all_fields v info p h k = rw (h, k)

-- What is left of the information once the outer header is skipped.
abbrev pub inner : Outer → ResponseInfo → ResponseInfo
inner o info = record info { size = info.size - outer_length o }

pub validator_is_valid_fields :
    (v : Validator) (o : Outer) (info : ResponseInfo) (first n : ℕ) (payload : Bytes)
    → IsOuter o first
    → IsReceived o n info
    → v.validate_protocol info.protocol ≡ true
    → v.validate_size (info.size - outer_length o) ≡ true
    → validator_is_valid v info (wrap o (first ∷ payload))
      ≡ v.validate_fields (inner o info) (first ∷ payload)
validator_is_valid_fields v o info first n payload w r p s =
    validator_is_valid-wrap v o info first n payload w r
    ∙ validate_all_fields v (inner o info) _ p s

-- `validateSize` of every validator is a lower bound.
pub fits_in :
    (n : ℕ) (o : Outer) (info : ResponseInfo)
    → IsReceived o n info
    → leb n (info.size - outer_length o) ≡ true
fits_in n o info r = le→leb n (info.size - outer_length o) (omega arith)

-- The quoted packet stands behind eight bytes and the IP header that it was sent with.
pub advance_to_quoted_lem :
    (h : IcmpHeader) (b : ℕ) (others quoted : Bytes)
    → IsIpHeader b others
    → advance_to_quoted (serialize_icmp h ++ (b ∷ (others ++ quoted))) ≡ ok quoted
unfolding advance_to_quoted serialize_icmp get_ip_header_size load8
advance_to_quoted_lem h b others quoted e = rw (e, drop-append others quoted)
