-- ===== src/Tracer/Origin.antt =====
-- Where the answer to a probe comes from, for either tracer.
use traceroute.Base.{ℕ, ◌+◌, ◌-◌, ◌/◌, ◌<◌, ◌≡◌, ◌⊎◌, true, some, Bytes, ok}
use traceroute.Address.{SocketAddress}
use traceroute.Packet.{Packet, get_destination_address}
use traceroute.Response.{ResponseInfo, is_valid}
use traceroute.Probe.{ProbeResult, failed_probe}
use traceroute.Tracer.{Env}

-- What the clock says has passed since a moment, in microseconds.
abbrev pub passed : (env : Env) → ℕ → env.World → ℕ
passed env then_ w = ((env.now w).0 - then_) / 1000

-- The factory made the packet, and it goes to the target.
abbrev pub IsAimed : (env : Env) → SocketAddress → Packet → Type 0
IsAimed env target packet =
    (get_destination_address packet ≡ target)
    × ((w w' : env.World) × (env.create_packet w ≡ ok (packet, w')))

-- The network took a packet with a time to live.
abbrev pub IsSent : (env : Env) → Packet → ℕ → Type 0
IsSent env packet ttl = (w w' : env.World) × (env.try_sending packet ttl 5000 w ≡ ok (true, w'))

-- The network handed out a message and left it in the buffer.
abbrev pub HasCome : (env : Env) → ResponseInfo → Bytes → Type 0
HasCome env info buffer =
    (before : Bytes) × (t : ℕ) × (w w' : env.World) × (env.try_receiving before t w
      ≡ ok (some info, buffer, w'))

-- The probe was answered: a packet that the factory made for the target was sent with the time to
-- live of the hop, a message came that the packet accepts, and the result reports its sender.
pub record IsAnswered (env : Env) (target : SocketAddress) (ttl : ℕ) (r : ProbeResult)
    : Type 0 where
  pub packet : Packet
  pub info : ResponseInfo
  pub buffer : Bytes
  pub is_sent : IsSent env packet ttl
  pub has_come : HasCome env info buffer
  pub accepts : is_valid packet info buffer ≡ ok true
  pub for_target : IsAimed env target packet
  pub succeeds : r.success ≡ true
  pub reports : r.response_sender ≡ some info.client

-- What the clock said at some moment.
abbrev pub IsReading : (env : Env) → ℕ → Type 0
IsReading env t = (w : env.World) × ((env.now w).0 ≡ t)

-- From a moment on, less than 10 microseconds of the timeout are left.
abbrev pub IsExpired : (env : Env) → ℕ → ℕ → env.World → Type 0
IsExpired env timeout sent_at w = timeout < passed env sent_at w + 10

-- The probe was given up: a packet that the factory made for the target was sent with the time to
-- live of the hop; between two readings of the clock, the first of which counts as the time of
-- the sending, more than the timeout less 10 microseconds passed; and the result reports a
-- failure after more than the timeout less 10 microseconds.
pub record IsGivenUp (env : Env) (target : SocketAddress) (timeout ttl : ℕ) (r : ProbeResult)
    : Type 0 where
  pub packet : Packet
  pub sent_at : ℕ
  pub waited : ℕ
  pub is_sent : IsSent env packet ttl
  pub for_target : IsAimed env target packet
  pub is_read : IsReading env sent_at
  pub expired : (w : env.World) × IsExpired env timeout sent_at w
  pub long : timeout < waited + 10
  pub reports : r ≡ failed_probe waited

-- A result of a hop.
abbrev pub IsResult : (env : Env) → SocketAddress → ℕ → ℕ → ProbeResult → Type 0
IsResult env target timeout ttl r = IsAnswered env target ttl r ⊎ IsGivenUp env target timeout ttl r
