-- ===== src/Fast/Position.antt =====
-- Where the sender of the fast tracer can stand, how many packets it has recorded there, and the
-- invariant that ties the packets to the results.
use traceroute.Base.{
  ℕ, suc, ◌+◌, ◌-◌, ◌*◌, ◌≤◌, ◌<◌, ◌^◌, ◌≡◌, ◌==◌, ltb, if◌then◌else◌, List, length, arith,
}
use traceroute.Fast.{PacketToValidate, Locked}
use traceroute.Fast.System.{Request, Stage, choosing, created, sent, ended, failed, Sender, System}
use traceroute.Fast.Conserve.{packets_at, results_at, results_in}
use traceroute.Fast.Order.{IsKeyedFrom}

-- A range of hops that does not wrap around, as the callers of `beginProbing` give it.
pub record IsRequest (q : Request) : Type 0 where
  pub ordered : q.ttl_begin ≤ suc q.ttl_end
  pub end_small : suc q.ttl_end < 2 ^ 32
  pub retries_small : q.retries < 2 ^ 32

-- How many packets for a hop are recorded when the sender stands at a position.
abbrev pub pushed_at : Request → Sender → ℕ → ℕ
pushed_at q s t =
    if ltb t q.ttl_begin
    then 0
    else if ltb t s.ttl
    then q.retries
    else if t == s.ttl
    then s.i
    else 0

abbrev pub pushed : Request → Sender → ℕ
pushed q s = (s.ttl - q.ttl_begin) * q.retries + s.i

abbrev pub IsInside : Request → ℕ → ℕ → Stage → Type 0
IsInside q ttl i choosing = (i ≤ q.retries) × (ttl ≡ suc q.ttl_end → i ≡ 0)
IsInside q ttl i (created packet) = (ttl ≤ q.ttl_end) × (i < q.retries)
IsInside q ttl i (sent packet) = (ttl ≤ q.ttl_end) × (i < q.retries)
IsInside q ttl i ended = (ttl ≡ suc q.ttl_end) × (i ≡ 0)
IsInside q ttl i failed = (ttl ≤ q.ttl_end) × (i < q.retries)

abbrev pub IsPosition : Request → Sender → Type 0
IsPosition q s = (q.ttl_begin ≤ s.ttl) × (s.ttl ≤ suc q.ttl_end) × IsInside q s.ttl s.i s.stage

-- Packets and results are those that the sender recorded, and those that were there before.
abbrev pub IsFlow : {W : Type 0} → Request → List PacketToValidate → Sender → Locked W → Type 0
IsFlow q old s l =
    ((t : ℕ) → packets_at t l.packets + results_at t l.results ≡ pushed_at q s t + packets_at t old)
    × (length l.packets + results_in l.results ≡ pushed q s + length old)

pub record IsInvariant {W : Type 0} (q : Request) (old : List PacketToValidate) (s : System W)
    : Type 0 where
  pub position : IsPosition q s.sender
  pub flow : IsFlow q old s.sender s.locked
  pub keyed : IsKeyedFrom 0 s.locked.results

pub pushed_at-next :
    (q : Request) (s : Sender) (t : ℕ)
    → q.ttl_begin ≤ s.ttl
    → s.i ≡ q.retries
    → pushed_at q s t ≡ pushed_at q (record { ttl = suc s.ttl; i = 0; stage = choosing }) t
pushed_at-next q s t l i = ground arith

pub pushed-next :
    (q : Request) (s : Sender)
    → q.ttl_begin ≤ s.ttl
    → s.i ≡ q.retries
    → pushed q s ≡ pushed q (record { ttl = suc s.ttl; i = 0; stage = choosing })
pushed-next q s l i =
    let e : suc s.ttl - q.ttl_begin ≡ suc (s.ttl - q.ttl_begin) = omega arith in
    rw (e, i) (grind arith)
