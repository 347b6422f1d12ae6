-- ===== src/Base/Results.antt =====
-- What a call comes to: a value, an exception, undefined behaviour, or no end within the fuel.
use mathlib.Core.Bool.{Bool, true, false}
use traceroute.Base.Tests.{if◌then◌else◌}
use mathlib.Core.Path.{subst, ◌≡◌, refl}

-- The exceptions of the library, named for the place that throws them.
pub data Exception : Type 0 where
  family_mismatch send_failed no_ip_header invalid_ip_header : Exception
  second_sending_socket family_of_address ttl_not_set sendto_failed recvfrom_failed : Exception
  poll_failed fd_unknown invalid_address conversion_failed : Exception
  bind_interface_failed bind_address_failed socket_option_failed : Exception
  connect_failed getsockname_failed : Exception

-- `undefined` is a read out of the buffer; `out_of_fuel` is a loop that the fuel did not end.
pub data Outcome (A : Type 0) : Type 0 where
  ok : A → Outcome A
  throw : Exception → Outcome A
  undefined : Outcome A
  out_of_fuel : Outcome A

-- What follows a call is left out once the call gives no value.
infixl 5 ◌>>=◌
abbrev pub ◌>>=◌ : {S T : Type 0} → Outcome S → (S → Outcome T) → Outcome T
undefined >>= next = undefined
out_of_fuel >>= next = out_of_fuel
throw x >>= next = throw x
ok s >>= next = next s

pub ok-injective : {A : Type 0} (a b : A) → ok a ≡ ok b → a ≡ b
ok-injective a b h = cc

-- The outcome is an exception or a value with a property: memory is respected and every loop
-- ends.
pub data Ensures {A : Type 0} (P : A → Type 0) : Outcome A → Type 0 where
  returns : (a : A) → P a → Ensures P (ok a)
  throws : (e : Exception) → Ensures P (throw e)

abbrev pub IsDefined : {A : Type 0} → Outcome A → Type 0
IsDefined = Ensures (λ _. Unit {0})

pub Ensures-bind :
    {A B : Type 0} {P : A → Type 0} {Q : B → Type 0} {m : Outcome A} {f : A → Outcome B}
    → Ensures P m
    → ((a : A) → P a → Ensures Q (f a))
    → Ensures Q (m >>= f)
Ensures-bind (returns a p) k = k a p
Ensures-bind (throws e) k = throws e

pub Ensures-if :
    {A : Type 0} {P : A → Type 0} (b : Bool) {x y : Outcome A}
    → Ensures P x
    → Ensures P y
    → Ensures P (if b then x else y)
Ensures-if true h k = h
Ensures-if false h k = k

-- A test, with what it came to in each branch.
pub Ensures-cases :
    {A : Type 0} {P : A → Type 0} (b : Bool) {x y : Outcome A}
    → (b ≡ true → Ensures P x)
    → (b ≡ false → Ensures P y)
    → Ensures P (if b then x else y)
Ensures-cases true h k = h refl
Ensures-cases false h k = k refl

pub Ensures-of :
    {A : Type 0} {P : A → Type 0} {m : Outcome A}
    → IsDefined m
    → ((a : A) → m ≡ ok a → P a)
    → Ensures P m
Ensures-of (returns a _) k = returns a (k a refl)
Ensures-of (throws e) k = throws e

pub Ensures-map :
    {A : Type 0} {P Q : A → Type 0} {m : Outcome A}
    → Ensures P m
    → ((a : A) → P a → Q a)
    → Ensures Q m
Ensures-map (returns a p) k = returns a (k a p)
Ensures-map (throws e) k = throws e

-- Reading it at an outcome that is known.
pub Ensures-ok :
    {A : Type 0} {P : A → Type 0} {o : Outcome A} {a : A} → Ensures P o → o ≡ ok a → P a
Ensures-ok {P} (returns a p) e = subst P (ok-injective _ _ e) p
Ensures-ok (throws x) e = cc

-- A value at the end of a block comes from a value of its first call.
pub first_call :
    {S T : Type 0} (call : Outcome S) {next : S → Outcome T} {t : T}
    → (call >>= next) ≡ ok t
    → (s : S) × (call ≡ ok s) × (next s ≡ ok t)
first_call undefined e = cc
first_call out_of_fuel e = cc
first_call (throw x) e = cc
first_call (ok s) e = (s, refl, e)
