-- ===== src/Sockets/Source.antt =====
-- src/ResolveSourceAddress.cpp: the address that a packet to a destination is sent from, and the
-- packets of a factory for it.
use traceroute.Base.{
  ℕ, ◌≤◌, ◌≡◌, refl, ◌∙◌, false, Option, none, some, Bytes, Ensures, returns, throws, Ensures-bind,
  Ensures-cases, bind_interface_failed, connect_failed, getsockname_failed,
}
use traceroute.Address.{SocketAddress, family, size}
use traceroute.Packet.{Packet}
use traceroute.Kernel.{Kernel, is_negative}
use traceroute.Sockets.{sock_dgram, bind_interface, bind_if_named, resolve_source_address}

-- What the function relies on: a descriptor keeps the family that it was opened for, its name has
-- that family where the length that `getsockname` is given has room for an address of either
-- family, and a call on a descriptor that `socket` could not give fails.
pub record IsNaming (k : Kernel) : Type 0 where
  pub domain : k.World → ℕ → ℕ
  pub socket_domain :
      (f type protocol : ℕ) (w : k.World)
      → is_negative (k.socket f type protocol w).0 ≡ false
      → domain (k.socket f type protocol w).1 (k.socket f type protocol w).0 ≡ f
  pub setsockopt_domain :
      (fd level option : ℕ) (value : Bytes) (w : k.World)
      → domain (k.setsockopt fd level option value w).1 fd ≡ domain w fd
  pub connect_domain :
      (fd : ℕ) (a : SocketAddress) (n : ℕ) (w : k.World)
      → domain (k.connect fd a n w).1 fd ≡ domain w fd
  pub connect_opened :
      (fd : ℕ) (a : SocketAddress) (n : ℕ) (w : k.World)
      → is_negative (k.connect fd a n w).0 ≡ false
      → is_negative fd ≡ false
  pub name_domain :
      (fd : ℕ) (storage : SocketAddress) (len : ℕ) (w : k.World)
      → 28 ≤ len
      → is_negative (k.getsockname fd storage len w).0 ≡ false
      → family (k.getsockname fd storage len w).1 ≡ domain w fd

-- The socket was opened for the destination and connected to it, then asked for its name, and
-- closed at the end; the name is the address, and has the family of the destination.
pub record IsSource (k : Kernel) (destination source storage : SocketAddress) (len : ℕ)
    (w' : k.World) : Type 0 where
  pub fd : ℕ
  pub opened : (w w₁ : k.World) × (k.socket (family destination) sock_dgram 17 w ≡ (fd, w₁))
  pub before : k.World
  pub connected : is_negative (k.connect fd destination (size destination) before).0 ≡ false
  pub named :
      let w₃ = (k.connect fd destination (size destination) before).1 in
      ((k.getsockname fd storage len w₃).1 ≡ source)
      × (w' ≡ (k.close fd (k.getsockname fd storage len w₃).3).1)
  pub same_family : family source ≡ family destination

module _ (k : Kernel) (laws : IsNaming k) where
  open laws use {
    domain, socket_domain, setsockopt_domain, connect_domain, connect_opened, name_domain,
  }

  bind_if_named-domain :
      (fd : ℕ) (name : Option Bytes) (w : k.World)
      → Ensures (λ w'. domain w' fd ≡ domain w fd) (bind_if_named k fd name w)
  unfolding bind_if_named bind_interface
  bind_if_named-domain fd none w = returns _ refl
  bind_if_named-domain fd (some name) w =
      Ensures-cases (is_negative (k.setsockopt fd 1 25 name w).0)
        (λ _. throws bind_interface_failed) (λ _. returns _ (setsockopt_domain fd 1 25 name w))

  pub resolve_source_address-IsSource :
      (destination storage : SocketAddress) (len : ℕ) (name : Option Bytes) (w : k.World)
      → 28 ≤ len
      → Ensures
          (λ (r : SocketAddress × k.World). IsSource k destination r.0 storage len r.1)
          (resolve_source_address k destination name storage len w)
  unfolding resolve_source_address
  resolve_source_address-IsSource destination storage len name w room =
      let (fd, w₁) = k.socket (family destination) sock_dgram 17 w in
      Ensures-bind (bind_if_named-domain fd name w₁) λ w₂ d.
        let w₃ = (k.connect fd destination (size destination) w₂).1 in
        Ensures-cases (is_negative (k.connect fd destination (size destination) w₂).0)
          (λ _. throws connect_failed)
          (λ c.
            Ensures-cases (is_negative (k.getsockname fd storage len w₃).0)
              (λ _. throws getsockname_failed)
              (λ n. returns _ (record {
                fd = fd;
                opened = (w, w₁, refl);
                before = w₂;
                connected = c;
                named = (refl, refl);
                same_family =
                    name_domain fd storage len w₃ room n
                    ∙ connect_domain fd destination (size destination) w₂
                    ∙ d
                    ∙ socket_domain (family destination) sock_dgram 17 w
                        (connect_opened fd destination (size destination) w₂ c);
              })))
