-- ===== src/Examples/Addresses.antt =====
-- Addresses compared and converted.
use traceroute.Base.{
  ℕ, zero, suc, ◌≡◌, ◌≢◌, ◌↔◌, refl, true, false, none, some, ok, throw, invalid_address,
}
use traceroute.Address.{SocketAddress, af_inet, af_inet6, address_eq, Resolver, parse_address}
use traceroute.Address.Host.{host, address_eq-Host}
use traceroute.Address.Equality.{address_eq_mixed}
use traceroute.Examples.Hosts.{home, server, server6, no_words, six_words}

address_eq-Host_example :
    (address_eq home server ≡ true) ↔ (host af_inet (home, refl) ≡ host af_inet (server, refl))
address_eq-Host_example = address_eq-Host af_inet (home, refl) (server, refl)

words_differ : six_words ≢ no_words
words_differ e = cc

address_eq_mixed_example : (address_eq home server6 ≡ true) × (address_eq server6 home ≡ false)
address_eq_mixed_example = address_eq_mixed home server6 refl refl refl words_differ

-- A resolver that knows two texts.
abbrev resolver : Resolver ℕ
resolver = record {
  getaddrinfo =
      λ t. elim t [ zero ↦ some af_inet | suc n ↦ elim n [ zero ↦ some af_inet6 | suc _ ↦ none ] ];
  inet_pton4 = λ t. some 0x0700000a;
  inet_pton6 = λ t. some six_words;
}

parsed : SocketAddress
parsed = record { ss_family = af_inet; port = 0; word4 = 0x0700000a; sin6_addr = no_words }

parse_v4_run : parse_address resolver home 0 ≡ ok parsed
unfolding parse_address parsed
parse_v4_run = refl

parse_unknown_run : parse_address resolver home 2 ≡ throw invalid_address
unfolding parse_address
parse_unknown_run = refl
