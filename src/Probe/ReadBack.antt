-- ===== src/Probe/ReadBack.antt =====
-- A printed result read again.
use traceroute.Base.{
  ℕ, zero, suc, ◌*◌, ◌^◌, ◌<◌, ◌≤◌, ◌≡◌, ◌≢◌, refl, ap, ◌∙◌, if◌then◌else◌, Bool, true, false,
  Option, some, none, List, [], ◌∷◌, ◌++◌, append_assoc, map, All, Bytes, length, take_number,
  take_number-to_digits, arith,
}
use traceroute.Address
use traceroute.Address.{SocketAddress, Printer, is_v4, s_addr}
use traceroute.Probe.{
  ProbeResult, TracerouteResult, remove_trailing_zeros, thousandths, sender_text, probe_line,
  probe_lines, to_string,
}
use traceroute.Probe.Reading.{and_then, expect, take_word, read_line, read_lines, read_result}
use traceroute.Probe.Times.{take_time-printed}

abbrev pub NotSpace : ℕ → Type 0
NotSpace c = c ≢ b' '

-- The texts of addresses have no space.
pub record IsPrinter (printer : Printer) : Type 0 where
  pub spaceless4 : (n : ℕ) → All NotSpace (printer.inet_ntop4 n)
  pub spaceless6 : (a : Address.In6Addr) → All NotSpace (printer.inet_ntop6 a)

-- The time of a probe is below 8 * 10 ^ 12 microseconds.
abbrev pub IsShort : ProbeResult → Type 0
IsShort r = r.waited_for < 8 * 10 ^ 12

-- What is printed of a probe.
abbrev pub told : Printer → ProbeResult → Option (Bytes × ℕ)
told printer r =
    if r.success then some (sender_text printer r.response_sender, r.waited_for) else none

take_word-append :
    (word rest : Bytes)
    → All NotSpace word
    → take_word (word ++ (b' ' ∷ rest)) ≡ (word, b' ' ∷ rest)
take_word-append [] rest h = refl
take_word-append (c ∷ word) rest (n, h) = ground (arith, take_word-append word rest h)

no_star :
    (word rest : Bytes)
    → All NotSpace word
    → expect (b' ' ∷ b'*' ∷ b'\n' ∷ []) (word ++ (b' ' ∷ b' ' ∷ rest)) ≡ none
no_star [] rest h = refl
no_star (c ∷ word) rest (n, h) = ground arith

-- A line with an answer, the rest of the text behind it.
answer_line : Bytes → ℕ → Bytes → Bytes
answer_line word count rest =
    word
    ++ (b' '
        ∷ b' '
        ∷ (remove_trailing_zeros (thousandths count) ++ (b' ' ∷ b'm' ∷ b's' ∷ b'\n' ∷ rest)))

read_line-answer_line :
    (word : Bytes) (count : ℕ) (rest : Bytes)
    → count < 8 * 10 ^ 12
    → All NotSpace word
    → read_line (answer_line word count rest) ≡ some (some (word, count), rest)
unfolding answer_line
read_line-answer_line word count rest b h =
    rw
      (
        no_star word
            (remove_trailing_zeros (thousandths count) ++ (b' ' ∷ b'm' ∷ b's' ∷ b'\n' ∷ rest)) h,
        take_word-append word
            (b' '
              ∷ (remove_trailing_zeros (thousandths count) ++ (b' ' ∷ b'm' ∷ b's' ∷ b'\n' ∷ rest)))
            h,
        take_time-printed count (b'm' ∷ b's' ∷ b'\n' ∷ rest) b,
      )
      refl

read_lines_step :
    (fuel : ℕ) (text : Bytes) (line : Option (Bytes × ℕ)) (more : Bytes)
    → read_line text ≡ some (line, more)
    → read_lines (suc fuel) text ≡ and_then (read_lines fuel more) (λ lines. some (line ∷ lines))
read_lines_step fuel [] line more e = cc
read_lines_step fuel (c ∷ text) line more e = rw e refl

module _ (printer : Printer) (laws : IsPrinter printer) where
  to_string-NotSpace : (a : SocketAddress) → All NotSpace (Address.to_string printer a)
  unfolding Address.to_string
  to_string-NotSpace a = printed-NotSpace (is_v4 a)
    where
      printed-NotSpace :
          (b : Bool)
          → All NotSpace
              (if b then printer.inet_ntop4 (s_addr a) else printer.inet_ntop6 a.sin6_addr)
      printed-NotSpace true = laws.spaceless4 (s_addr a)
      printed-NotSpace false = laws.spaceless6 a.sin6_addr

  sender_text-NotSpace : (sender : Option SocketAddress) → All NotSpace (sender_text printer sender)
  unfolding sender_text
  sender_text-NotSpace none = tt
  sender_text-NotSpace (some a) = to_string-NotSpace a

  read_line-probe_line :
      (success : Bool) (waited_for : ℕ) (sender : Option SocketAddress) (rest : Bytes)
      → waited_for < 8 * 10 ^ 12
      → read_line (
          probe_line printer
            (record { success = success; waited_for = waited_for; response_sender = sender })
          ++ rest)
        ≡ some (
          told printer
              (record { success = success; waited_for = waited_for; response_sender = sender }),
          rest,
        )
  unfolding probe_line answer_line
  read_line-probe_line false waited_for sender rest b = refl
  read_line-probe_line true waited_for sender rest b =
      ap read_line (
        append_assoc (sender_text printer sender) _ rest
        ∙ ap (λ t. sender_text printer sender ++ (b' ' ∷ b' ' ∷ t))
            (append_assoc (remove_trailing_zeros (thousandths waited_for))
              (b' ' ∷ b'm' ∷ b's' ∷ b'\n' ∷ []) rest))
      ∙ read_line-answer_line (sender_text printer sender) waited_for rest b
          (sender_text-NotSpace sender)

  read_lines-probe_lines :
      (fuel : ℕ) (rs : List ProbeResult)
      → length rs ≤ fuel
      → All IsShort rs
      → read_lines fuel (probe_lines printer rs) ≡ some (map (told printer) rs)
  unfolding probe_lines
  read_lines-probe_lines fuel [] h s = refl
  read_lines-probe_lines zero (r ∷ rest) h s = absurd (omega arith)
  read_lines-probe_lines (suc fuel) (r ∷ rest) h (b, s) =
      read_lines_step fuel (probe_line printer r ++ probe_lines printer rest) (told printer r)
        (probe_lines printer rest)
        (read_line-probe_line r.success r.waited_for r.response_sender (probe_lines printer rest) b)
      ∙ rw (read_lines-probe_lines fuel rest (omega arith) s) refl

  -- If the texts of addresses have no space and the times of the probes are below 8 * 10 ^ 12
  -- microseconds, reading the text that `toString` makes of a hop
  -- gives back its time to live and, for each probe in order, either that it failed or the text
  -- of the sender and the time in microseconds, for any number of lines that is at least that of
  -- the probes.
  pub read_result-to_string :
      (fuel : ℕ) (r : TracerouteResult)
      → length r.probe_results ≤ fuel
      → All IsShort r.probe_results
      → read_result fuel (to_string printer r) ≡ some (r.ttl, map (told printer) r.probe_results)
  unfolding to_string take_number
  read_result-to_string fuel r h s =
      rw
        (
          take_number-to_digits r.ttl (b' ' ∷ b' ' ∷ probe_lines printer r.probe_results),
          read_lines-probe_lines fuel r.probe_results h s,
        )
        refl
