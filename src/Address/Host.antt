-- ===== src/Address/Host.antt =====
-- The hosts of a family: its addresses without their ports and unused words.
use mathlib.Core.Quot
use mathlib.Core.Quot.{Quot}
use mathlib.Core.Bool.{Bool-set}
use traceroute.Base.{ℕ, ◌≡◌, ◌↔◌, sym, ap, ◌∙◌, Bool, true, arith}
use traceroute.Address.{SocketAddress, address_eq}
use traceroute.Address.Equality.{SameHost, address_eq_iff, address_eq_refl}

abbrev pub Member : ℕ → Type 0
Member f = (a : SocketAddress) × (a.ss_family ≡ f)

abbrev pub Equal : (f : ℕ) → Member f → Member f → Type 0
Equal f a b = SameHost a.0 b.0

-- Addresses with the same words for the host are one host, whatever their ports are and whatever
-- else the storage holds.
abbrev pub Host : ℕ → Type 0
Host f = Quot (Equal f)

abbrev pub host : (f : ℕ) → Member f → Host f
host f a = Quot.mk a

-- Within a family equal addresses compare in the same way with any other.
address_eq_same : (f : ℕ) (a b c : Member f) → Equal f b c → address_eq a.0 b.0 ≡ address_eq a.0 c.0
unfolding address_eq
address_eq_same f (a, fa) (b, fb) (c, fc) h = ground arith

compare : (f : ℕ) → Member f → Host f → Bool
compare f a = Quot.lift Bool-set (λ b. address_eq a.0 b.0) (address_eq_same f a)

-- Within a family `operator==` is the equality of hosts: it is true exactly when its operands
-- stand for one element of the quotient of the family's addresses by the words that name the
-- host, which are `s_addr` for af_inet and the four words of `sin6_addr` for any other family. So
-- it is reflexive, symmetric and transitive there, and takes nothing for equal that is not.
pub address_eq-Host : (f : ℕ) (a b : Member f) → (address_eq a.0 b.0 ≡ true) ↔ (host f a ≡ host f b)
unfolding compare
address_eq-Host f a b = (
  λ h. Quot.sound ((address_eq_iff a.0 b.0).0 h),
  λ e. ap (compare f a) (sym e) ∙ address_eq_refl a.0,
)
