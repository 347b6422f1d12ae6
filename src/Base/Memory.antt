-- ===== src/Base/Memory.antt =====
-- Memory behind a pointer: the bytes from the pointer to the end of its buffer. Words are read
-- little-endian, as the machines that the program runs on store them.
use Prim.Native.Nat.{ℕ, suc, ◌+◌, ◌*◌, ◌/◌, ◌%◌, ◌<◌}
use mathlib.Core.Path.{◌≡◌, sym, subst}
use mathlib.Core.List.{List, ◌∷◌}
use mathlib.Core.Option.{Option, none, some}
use native.Mathlib.Omega.{arith}
use traceroute.Base.Lists.{length, get_elem?, get_elem?_of_lt}
use traceroute.Base.Results.{Outcome, ok, undefined, ◌>>=◌, IsDefined, returns}

abbrev pub Bytes : Type 0
Bytes = List ℕ

abbrev pub IsByte : ℕ → Type 0
IsByte b = b < 256

abbrev pub from_option : Option ℕ → Outcome ℕ
from_option none = undefined
from_option (some b) = ok b

unfoldable pub load8 : Bytes → ℕ → Outcome ℕ
load8 p i = from_option (get_elem? p i)

unfoldable pub load16 : Bytes → ℕ → Outcome ℕ
unfolding load8
load16 p i = do lo ← load8 p i; hi ← load8 p (suc i); ok (lo + 256 * hi)

unfoldable pub load32 : Bytes → ℕ → Outcome ℕ
unfolding load16
load32 p i = do lo ← load16 p i; hi ← load16 p (suc (suc i)); ok (lo + 65536 * hi)

-- How a word stands in memory.
unfoldable pub store16 : ℕ → Bytes → Bytes
store16 w rest = w % 256 ∷ w / 256 % 256 ∷ rest

unfoldable pub store32 : ℕ → Bytes → Bytes
unfolding store16
store32 w rest = store16 (w % 65536) (store16 (w / 65536 % 65536) rest)

-- A read within the buffer gives a value.
pub load8_lem : (p : Bytes) (i : ℕ) → i < length p → (b : ℕ) × (load8 p i ≡ ok b)
unfolding load8
load8_lem p i h = let (b, e) = get_elem?_of_lt p i h in (b, rw e)

pub load16_lem : (p : Bytes) (i : ℕ) → i + 1 < length p → (w : ℕ) × (load16 p i ≡ ok w)
unfolding load16
load16_lem p i h =
    let (a, ea) = load8_lem p i (omega arith) in
    let (b, eb) = load8_lem p (suc i) (omega arith) in (a + 256 * b, rw (ea, eb))

pub load32_lem : (p : Bytes) (i : ℕ) → i + 3 < length p → (w : ℕ) × (load32 p i ≡ ok w)
unfolding load32
load32_lem p i h =
    let (a, ea) = load16_lem p i (omega arith) in
    let (b, eb) = load16_lem p (suc (suc i)) (omega arith) in (a + 65536 * b, rw (ea, eb))

pub Ensures-load8 : (p : Bytes) (i : ℕ) → i < length p → IsDefined (load8 p i)
Ensures-load8 p i h = let (b, e) = load8_lem p i h in subst IsDefined (sym e) (returns _ tt)

pub Ensures-load16 : (p : Bytes) (i : ℕ) → i + 1 < length p → IsDefined (load16 p i)
Ensures-load16 p i h = let (w, e) = load16_lem p i h in subst IsDefined (sym e) (returns _ tt)

pub Ensures-load32 : (p : Bytes) (i : ℕ) → i + 3 < length p → IsDefined (load32 p i)
Ensures-load32 p i h = let (w, e) = load32_lem p i h in subst IsDefined (sym e) (returns _ tt)
