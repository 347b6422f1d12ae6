-- ===== src/Probe/Reading.antt =====
-- A reader of printed results.
use traceroute.Base.{
  ℕ, zero, suc, ◌+◌, ◌-◌, ◌*◌, ◌/◌, ◌==◌, if◌then◌else◌, Option, none, some, List, [], ◌∷◌, Bytes,
  is_digit, take_number,
}

abbrev pub and_then {ℓ} : {A B : Type ℓ} → Option A → (A → Option B) → Option B
and_then none f = none
and_then (some a) f = f a

-- What stands behind a text that is expected.
abbrev pub expect : Bytes → Bytes → Option Bytes
expect [] text = some text
expect (c ∷ cs) [] = none
expect (c ∷ cs) (d ∷ text) = if c == d then expect cs text else none

-- The characters in front of a space.
abbrev pub take_word : Bytes → Bytes × Bytes
take_word [] = ([], [])
take_word (c ∷ text) =
    if c == b' ' then ([], c ∷ text) else (c ∷ (take_word text).0, (take_word text).1)

-- Digits behind a decimal point, of which the first has the given weight.
abbrev pub take_fraction : ℕ → ℕ → Bytes → ℕ × Bytes
take_fraction weight total [] = (total, [])
take_fraction weight total (c ∷ text) =
    if is_digit c
    then take_fraction (weight / 10) (total + (c - b'0') * weight) text
    else (total, c ∷ text)

-- A time in milliseconds, as microseconds.
abbrev pub take_time : Bytes → Option (ℕ × Bytes)
take_time text =
    and_then (expect (b'.' ∷ []) (take_number 0 text).1)
      (λ fraction. some (take_fraction 100 ((take_number 0 text).0 * 1000) fraction))

-- What a line tells: that there was no answer, or the sender and the time.
abbrev pub read_answer : Bytes → Option (Option (Bytes × ℕ) × Bytes)
read_answer text = and_then (expect (b' ' ∷ b' ' ∷ []) (take_word text).1) λ time.
    and_then (take_time time) λ (waited, end).
      and_then (expect (b' ' ∷ b'm' ∷ b's' ∷ b'\n' ∷ []) end)
        λ more. some (some ((take_word text).0, waited), more)

abbrev pub unless_star : Bytes → Option Bytes → Option (Option (Bytes × ℕ) × Bytes)
unless_star text (some more) = some (none, more)
unless_star text none = read_answer text

abbrev pub read_line : Bytes → Option (Option (Bytes × ℕ) × Bytes)
read_line text = unless_star text (expect (b' ' ∷ b'*' ∷ b'\n' ∷ []) text)

-- At most `fuel` lines.
abbrev pub read_lines : ℕ → Bytes → Option (List (Option (Bytes × ℕ)))
read_lines fuel [] = some []
read_lines zero (c ∷ text) = none
read_lines (suc fuel) (c ∷ text) =
    and_then (read_line (c ∷ text))
      λ (line, more). and_then (read_lines fuel more) λ lines. some (line ∷ lines)

abbrev pub read_result : ℕ → Bytes → Option (ℕ × List (Option (Bytes × ℕ)))
read_result fuel text =
    and_then (expect (b' ' ∷ b' ' ∷ []) (take_number 0 text).1)
      λ lines. and_then (read_lines fuel lines) λ told. some ((take_number 0 text).0, told)
