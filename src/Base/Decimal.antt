-- ===== src/Base/Decimal.antt =====
-- `std::to_string` of an unsigned number, and how a reader takes digits up again.
use Prim.Native.Nat.{ℕ, ◌+◌, ◌-◌, ◌*◌, ◌/◌, ◌%◌, ◌≤◌, ◌<◌}
use mathlib.Core.Path.{◌≡◌}
use mathlib.Core.Logic.{dite, ite}
use mathlib.Core.Bool.{Bool, ◌&&◌}
use mathlib.Core.List.{List, [], ◌∷◌}
use mathlib.Core.WellFounded
use mathlib.Core.WellFounded.{Acc, Acc-prop}
use native.Mathlib.Decide.{dec_lt}
use native.Mathlib.Omega.{arith}
use traceroute.Base.Tests.{leb, if◌then◌else◌}
use traceroute.Base.Descent.{lt_wf}

-- The digits of `n` in front of a text, from the last one to the first.
prepend : (n : ℕ) → Acc ◌<◌ n → List ℕ → List ℕ
prepend n (Acc.intro _ smaller) text =
    dite (dec_lt 9 n)
      (λ big. prepend (n / 10) (smaller (n / 10) (omega arith)) ((b'0' + n % 10) ∷ text))
      (λ _. (b'0' + n) ∷ text)

unfoldable pub to_digits : ℕ → List ℕ → List ℕ
unfolding prepend lt_wf dec_lt
to_digits n text = prepend n (lt_wf.apply n) text

abbrev pub is_digit : ℕ → Bool
is_digit c = leb b'0' c && leb c b'9'

-- The number that begins with `n` and goes on with the digits in front; what stands behind them.
unfoldable pub take_number : ℕ → List ℕ → ℕ × List ℕ
take_number n [] = (n, [])
take_number n (c ∷ text) =
    if is_digit c then take_number (n * 10 + (c - b'0')) text else (n, c ∷ text)

prepend_step :
    (n : ℕ) (w : Acc ◌<◌ n) (w' : Acc ◌<◌ (n / 10)) (text : List ℕ)
    → prepend n w text
      ≡ ite (dec_lt 9 n) (prepend (n / 10) w' ((b'0' + n % 10) ∷ text)) ((b'0' + n) ∷ text)
unfolding prepend
prepend_step n (Acc.intro _ smaller) w' text = λ i.
    dite (dec_lt 9 n)
      (λ big.
        prepend (n / 10) (Acc-prop (smaller (n / 10) (omega arith)) w' i) ((b'0' + n % 10) ∷ text))
      (λ _. (b'0' + n) ∷ text)

-- A round of the loop.
pub to_digits_step :
    (n : ℕ) (text : List ℕ)
    → to_digits n text
      ≡ ite (dec_lt 9 n) (to_digits (n / 10) ((b'0' + n % 10) ∷ text)) ((b'0' + n) ∷ text)
unfolding to_digits
to_digits_step n = prepend_step n (lt_wf.apply n) (lt_wf.apply (n / 10))

take_number_digit :
    (n d : ℕ) (text : List ℕ)
    → d ≤ 9
    → take_number n ((b'0' + d) ∷ text) ≡ take_number (n * 10 + d) text
unfolding take_number
take_number_digit n d text h = ground arith

-- Reading a printed number from nothing comes to where its digits end.
pub take_number-to_digits :
    (n : ℕ) (text : List ℕ) → take_number 0 (to_digits n text) ≡ take_number n text
take_number-to_digits n =
    WellFounded.induction lt_wf
      {C = λ m. (text : List ℕ) → take_number 0 (to_digits m text) ≡ take_number m text} n
      λ m ih text. grind (
        arith,
        to_digits_step m text,
        take_number_digit (m / 10) (m % 10) text,
        take_number_digit 0 m text,
        ih (m / 10),
      )

on_ite {ℓ} :
    (R : List ℕ → List ℕ → Type ℓ) {A : Type 0} (d : Dec A) {x x' y y' : List ℕ}
    → (A → R x x')
    → (¬ A → R y y')
    → R (ite d x y) (ite d x' y')
on_ite R (yes a) f g = f a
on_ite R (no n) f g = g n

-- What holds between texts, and still does with one digit in front of both, holds with a number
-- in front of both.
pub to_digits-rel {ℓ} :
    (R : List ℕ → List ℕ → Type ℓ)
    → ((d : ℕ) (t u : List ℕ) → d ≤ 9 → R t u → R ((b'0' + d) ∷ t) ((b'0' + d) ∷ u))
    → (n : ℕ) (t u : List ℕ) → R t u
    → R (to_digits n t) (to_digits n u)
to_digits-rel R step n =
    WellFounded.induction lt_wf
      {C = λ m. (t u : List ℕ) → R t u → R (to_digits m t) (to_digits m u)} n
      λ m ih t u r.
        rw (to_digits_step m t, to_digits_step m u)
          (on_ite R (dec_lt 9 m)
            (λ big. ih (m / 10) (omega arith) _ _ (step (m % 10) t u (omega arith) r))
            (λ small. step m t u (omega arith) r))
