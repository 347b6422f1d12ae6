-- ===== src/Validator.antt =====
-- include/Traceroute/ResponseValidators/ResponseValidator.hpp and
-- src/ResponseValidators/ResponseValidator.cpp: the base class of the validators, with the ICMP
-- types that they look for.
use traceroute.Base.{ℕ, Bool, ◌||◌, ◌==◌, if◌then◌else◌, Bytes, Outcome, ok, ◌>>=◌, false}
use traceroute.Checksum.{ipproto_icmp, ipproto_icmpv6}
use traceroute.IpHeader.{ResponseInfo, is_ip_header_present, skip_ip_header}

abbrev pub icmp_echoreply : ℕ
icmp_echoreply = 0

abbrev pub icmp_dest_unreach : ℕ
icmp_dest_unreach = 3

abbrev pub icmp_time_exceeded : ℕ
icmp_time_exceeded = 11

abbrev pub icmp6_dst_unreach : ℕ
icmp6_dst_unreach = 1

abbrev pub icmp6_time_exceeded : ℕ
icmp6_time_exceeded = 3

abbrev pub icmp6_echo_reply : ℕ
icmp6_echo_reply = 129

-- The virtual functions of `ResponseValidator`.
pub record Validator : Type 0 where
  pub validate_protocol : ℕ → Bool
  pub validate_size : ℕ → Bool
  pub validate_fields : ResponseInfo → Bytes → Outcome Bool

-- The `&&` of the three checks does not make a later one after an earlier one failed.
unfoldable pub validate_all : Validator → ResponseInfo → Bytes → Outcome Bool
validate_all v info response =
    if v.validate_protocol info.protocol
    then if v.validate_size info.size then v.validate_fields info response else ok false
    else ok false

-- `ResponseValidator::isValid`.
unfoldable pub validator_is_valid : Validator → ResponseInfo → Bytes → Outcome Bool
validator_is_valid v info response = do
  present ← is_ip_header_present info response
  if present
      then (do
        (new_info, new_response) ← skip_ip_header info response
        validate_all v new_info new_response)
      else validate_all v info response

abbrev pub is_icmp_protocol : ℕ → Bool
is_icmp_protocol protocol = protocol == ipproto_icmp || protocol == ipproto_icmpv6
