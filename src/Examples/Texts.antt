-- ===== src/Examples/Texts.antt =====
-- Addresses and results as texts.
use traceroute.Base.{
  ℕ, ◌≡◌, inr, refl, true, false, Option, none, some, [], ◌∷◌, map, Bytes, ok, to_digits, arith,
}
use traceroute.Address.{SocketAddress, In6Addr, af_inet, af_inet6, Resolver, Printer, parse_address}
use traceroute.Address
use traceroute.Address.Text.{IsInverse, IsCopy, parse_address-to_string}
use traceroute.Probe
use traceroute.Probe.{TracerouteResult, thousandths, remove_trailing_zeros, probe_line}
use traceroute.Probe.Reading.{read_result}
use traceroute.Probe.Shortest.{IsPrinted, remove_trailing_zeros-IsPrinted}
use traceroute.Probe.ReadBack.{IsPrinter, told, read_result-to_string}
use traceroute.Examples.Hosts.{home, server, server6}

-- Each host has the name of its family.
abbrev names : Printer
names = record { inet_ntop4 = λ n. b'v' ∷ b'4' ∷ []; inet_ntop6 = λ a. b'v' ∷ b'6' ∷ [] }

names-IsPrinter : IsPrinter names
names-IsPrinter = record {
  spaceless4 = λ n. (λ e. omega arith, (λ e. omega arith, tt));
  spaceless6 = λ a. (λ e. omega arith, (λ e. omega arith, tt));
}

-- A hop with an answer after one and a half milliseconds, none, and one after exactly a
-- millisecond.
abbrev hop : TracerouteResult
hop = record {
  ttl = 12;
  probe_results =
      record { success = true; waited_for = 1500; response_sender = some server }
      ∷ record { success = false; waited_for = 0; response_sender = none }
      ∷ record { success = true; waited_for = 1000; response_sender = some server6 }
      ∷ [];
}

read_result-to_string_example :
    read_result 3 (Probe.to_string names hop) ≡ some (12, map (told names) hop.probe_results)
read_result-to_string_example =
    read_result-to_string names names-IsPrinter 3 hop (omega arith)
      (omega arith, (omega arith, (omega arith, tt)))

-- From 8796093022001 microseconds on, the six digits are not always those of the number itself.
inexact_run :
    remove_trailing_zeros (thousandths 8796093022001)
    ≡ to_digits 8796093022 (b'.' ∷ b'0' ∷ b'0' ∷ b'0' ∷ b'9' ∷ b'9' ∷ b'9' ∷ [])
unfolding remove_trailing_zeros thousandths
inexact_run = refl

-- A whole number of milliseconds keeps its point.
whole_run : remove_trailing_zeros (thousandths 1000) ≡ b'1' ∷ b'.' ∷ []
unfolding remove_trailing_zeros thousandths
whole_run = refl

remove_trailing_zeros-IsPrinted_example : IsPrinted 1500 (remove_trailing_zeros (thousandths 1500))
remove_trailing_zeros-IsPrinted_example = remove_trailing_zeros-IsPrinted 1500 (omega arith)

lines_run :
    Probe.to_string names hop
    ≡ to_digits 12 (
        b' ' ∷ b' ' ∷ b'v' ∷ b'4' ∷ b' ' ∷ b' ' ∷ b'1' ∷ b'.' ∷ b'5' ∷ b' ' ∷ b'm' ∷ b's' ∷ b'\n'
        ∷ b' ' ∷ b'*' ∷ b'\n' ∷ b'v' ∷ b'6' ∷ b' ' ∷ b' ' ∷ b'1' ∷ b'.' ∷ b' ' ∷ b'm' ∷ b's' ∷ b'\n'
        ∷ [])
unfolding Probe.to_string Probe.probe_lines probe_line Probe.sender_text remove_trailing_zeros
    thousandths Address.to_string Address.is_v4 Address.family
lines_run = refl

-- Texts that spell out the numbers of an address behind its family.
abbrev spelled : Printer
spelled = record {
  inet_ntop4 = λ n. b'4' ∷ n ∷ [];
  inet_ntop6 = λ a. b'6' ∷ a.w0 ∷ a.w1 ∷ a.w2 ∷ a.w3 ∷ [];
}

abbrev four : Bytes → Option ℕ
four (m ∷ n ∷ []) = some n
four _ = none

abbrev six : Bytes → Option In6Addr
six (m ∷ a ∷ b ∷ c ∷ d ∷ []) = some (record { w0 = a; w1 = b; w2 = c; w3 = d })
six _ = none

abbrev kind : Option ℕ → Option In6Addr → Option ℕ
kind none none = none
kind none (some a) = some af_inet6
kind (some n) six = some af_inet

abbrev speller : Resolver Bytes
speller = record { getaddrinfo = λ t. kind (four t) (six t); inet_pton4 = four; inet_pton6 = six }

speller-IsInverse : IsInverse spelled speller
speller-IsInverse = record {
  family4 = λ n. refl;
  family6 = λ a. refl;
  pton4 = λ n. refl;
  pton6 = λ a. refl;
}

parse_address-to_string_example :
    (b : SocketAddress) × (parse_address speller home (Address.to_string spelled server6) ≡ ok b)
    × IsCopy server6 b
parse_address-to_string_example =
    parse_address-to_string spelled speller home server6 speller-IsInverse (inr refl)
