-- ===== src/Probe.antt =====
-- include/Traceroute/Probe.hpp and src/Probe.cpp: the results of a probe and of a hop.
pub mod Reading
pub mod Times
pub mod Shortest
pub mod ReadBack
use traceroute.Double.{quotient_1000, millionths, six_digits}
use traceroute.Base.{
  ℕ, ◌+◌, ◌/◌, ◌%◌, ◌==◌, if◌then◌else◌, Bool, true, false, Option, none, some, List, [], ◌∷◌, ◌++◌,
  Bytes, to_digits,
}
use traceroute.Address
use traceroute.Address.{SocketAddress, Printer}

-- `waitedFor` counts microseconds.
pub record ProbeResult : Type 0 where
  pub success : Bool
  pub waited_for : ℕ
  pub response_sender : Option SocketAddress

pub record TracerouteResult : Type 0 where
  pub ttl : ℕ
  pub probe_results : List ProbeResult

unfoldable pub failed_probe : ℕ → ProbeResult
failed_probe waited_for = record {
  success = false;
  waited_for = waited_for;
  response_sender = none;
}

unfoldable pub success_probe : ℕ → SocketAddress → ProbeResult
success_probe waited_for response_sender = record {
  success = true;
  waited_for = waited_for;
  response_sender = some response_sender;
}

-- `str.erase(str.find_last_not_of('0') + 1, npos)`
keep_front : ℕ → Bytes → Bytes
keep_front c [] = if c == b'0' then [] else c ∷ []
keep_front c (d ∷ text) = c ∷ d ∷ text

unfoldable pub remove_trailing_zeros : Bytes → Bytes
unfolding keep_front
remove_trailing_zeros [] = []
remove_trailing_zeros (c ∷ text) = keep_front c (remove_trailing_zeros text)

-- `std::to_string(count / 1000.0)`: the six digits behind the point of the nearest `double`.
unfoldable pub thousandths : ℕ → Bytes
unfolding six_digits millionths quotient_1000
thousandths count = six_digits (millionths (quotient_1000 count))

unfoldable pub sender_text : Printer → Option SocketAddress → Bytes
sender_text printer none = []
sender_text printer (some a) = Address.to_string printer a

-- A line of the loop over the probes.
unfoldable pub probe_line : Printer → ProbeResult → Bytes
unfolding sender_text remove_trailing_zeros thousandths
probe_line printer r =
    if r.success
    then sender_text printer r.response_sender
      ++ (b' '
          ∷ b' '
          ∷ (remove_trailing_zeros (thousandths r.waited_for) ++ (b' ' ∷ b'm' ∷ b's' ∷ b'\n' ∷ [])))
    else b' ' ∷ b'*' ∷ b'\n' ∷ []

unfoldable pub probe_lines : Printer → List ProbeResult → Bytes
unfolding probe_line
probe_lines printer [] = []
probe_lines printer (r ∷ rest) = probe_line printer r ++ probe_lines printer rest

-- `toString(const TracerouteResult &)`
unfoldable pub to_string : Printer → TracerouteResult → Bytes
unfolding to_digits probe_lines
to_string printer r = to_digits r.ttl (b' ' ∷ b' ' ∷ probe_lines printer r.probe_results)
