-- ===== src/Checksum/Fold.antt =====
-- The sum of 16-bit words and its folding.
use mathlib.Core.WellFounded.{Acc}
use traceroute.Base.{
  ℕ, ◌+◌, ◌-◌, ◌*◌, ◌/◌, ◌%◌, ◌^◌, ◌<◌, ◌≡◌, [], ◌∷◌, Bytes, arith, if◌then◌else◌, ◌==◌,
}
use traceroute.Base.{All, IsByte, length, lt_wf}
use traceroute.Checksum.{add_words, fold_loop, fold, compute_checksum}

-- What folding preserves: the residue, and being zero.
abbrev pub IsFolded : ℕ → ℕ → Type 0
IsFolded sum r = (r < 65536) × (r % 65535 ≡ sum % 65535) × (sum ≡ 0 → r ≡ 0) × (0 < sum → 0 < r)

pub fold_loop-IsFolded : (sum : ℕ) (w : Acc ◌<◌ sum) → IsFolded sum (fold_loop sum w)
unfolding fold_loop
fold_loop-IsFolded sum (Acc.intro _ smaller) = grind (
  arith,
  λ (p : sum % 65536 + sum / 65536 < sum).
      fold_loop-IsFolded (sum % 65536 + sum / 65536) (smaller (sum % 65536 + sum / 65536) p),
)

-- The closed form of a folded sum.
unfoldable pub residue : ℕ → ℕ
residue sum = if sum == 0 then 0 else (sum - 1) % 65535 + 1

pub residue-lt : (sum : ℕ) → residue sum < 65536
unfolding residue
residue-lt sum = ground arith

-- The folding loop ends on every sum with a 16-bit number: 0 for 0, and for any other sum the
-- representative of its residue modulo 65535 between 1 and 65535.
fold-residue : (sum : ℕ) → fold sum ≡ residue sum
unfolding fold residue
fold-residue sum = ground (arith, fold_loop-IsFolded sum (lt_wf.apply sum))

-- The words of the bytes, added without wrapping.
abbrev pub word_sum : Bytes → ℕ
word_sum [] = 0
word_sum (lo ∷ []) = lo
word_sum (lo ∷ hi ∷ rest) = lo + 256 * hi + word_sum rest

pub add_words-word_sum :
    (p : Bytes) (sum : ℕ)
    → All IsByte p
    → sum + 65536 * length p < 2 ^ 64
    → add_words p sum ≡ sum + word_sum p
unfolding add_words
add_words-word_sum [] sum h k = omega arith
add_words-word_sum (lo ∷ []) sum h k = omega arith
add_words-word_sum (lo ∷ hi ∷ rest) sum h k =
    omega (arith, add_words-word_sum rest ((sum + (lo + 256 * hi)) % 2 ^ 64) h.1.1 (omega arith))

-- For bytes whose sum cannot reach 2 ^ 64 the checksum, cut to 16 bits, is the complement of the
-- residue of the plain sum of the words: the Internet checksum of RFC 1071.
pub compute_checksum_lem :
    (p : Bytes) (prev_sum : ℕ)
    → All IsByte p
    → prev_sum + 65536 * length p < 2 ^ 64
    → compute_checksum p prev_sum % 65536 ≡ 65535 - residue (prev_sum + word_sum p)
unfolding compute_checksum
compute_checksum_lem p prev_sum h k =
    rw (add_words-word_sum p prev_sum h k, fold-residue (prev_sum + word_sum p))
      (omega (arith, residue-lt (prev_sum + word_sum p)))
