-- ===== src/Sequential/Waits.antt =====
-- What the wait of the sequential tracer for one answer comes to, without its loop.
use traceroute.Base.{ℕ, ◌+◌, ◌-◌, ◌/◌, ◌≤◌, ◌≡◌, subst, true, false, Option, none, some, Bytes, ok}
use traceroute.Packet.{Packet}
use traceroute.Response.{ResponseInfo, is_valid}
use traceroute.Probe.{ProbeResult, failed_probe}
use traceroute.Tracer.{Env}
use traceroute.Tracer.Origin.{HasCome, IsExpired, passed}

-- Nothing was heard, or a message that the packet does not accept.
abbrev pub IsRefused : Packet → Option ResponseInfo → Bytes → Type 0
IsRefused packet none buffer = Unit {0}
IsRefused packet (some info) buffer = is_valid packet info buffer ≡ ok false

-- A wait that starts with a buffer and a world ends with an answer or without one. As long as 10
-- microseconds are left a message is awaited for what is left; the first that the packet accepts
-- is the answer.
pub data Waits (env : Env) (packet : Packet) (sent_at timeout : ℕ) (answer : Option ResponseInfo)
    (b_end : Bytes) (w_end : env.World) : Bytes → env.World → Type 0 where
  expires :
      {b : Bytes} {w : env.World}
      → IsExpired env timeout sent_at w
      → answer ≡ none
      → Waits env packet sent_at timeout answer b_end w_end b w
  accepts :
      {b : Bytes} {w w' : env.World} (info : ResponseInfo)
      → passed env sent_at w + 10 ≤ timeout
      → env.try_receiving b ((timeout - passed env sent_at w) / 1000) (env.now w).1
        ≡ ok (some info, b_end, w')
      → is_valid packet info b_end ≡ ok true
      → answer ≡ some info
      → w_end ≡ (env.now w').1
      → Waits env packet sent_at timeout answer b_end w_end b w
  goes_on :
      {b b' : Bytes} {w w' : env.World} (heard : Option ResponseInfo)
      → passed env sent_at w + 10 ≤ timeout
      → env.try_receiving b ((timeout - passed env sent_at w) / 1000) (env.now w).1
        ≡ ok (heard, b', w')
      → IsRefused packet heard b'
      → Waits env packet sent_at timeout answer b_end w_end b' w'
      → Waits env packet sent_at timeout answer b_end w_end b w

-- The result that reports how the wait ended: the time since the sending and the sender of the
-- answer, or the timeout.
abbrev pub Reports : (env : Env) → ℕ → ℕ → env.World → Option ResponseInfo → ProbeResult → Type 0
Reports env sent_at timeout w none r = r ≡ failed_probe timeout
Reports env sent_at timeout w (some info) r =
    (r.success ≡ true)
    × (r.response_sender ≡ some info.client)
    × (r.waited_for ≡ passed env sent_at w)

-- The answer came from the network and was accepted.
pub Waits-HasCome :
    (env : Env) (packet : Packet) (sent_at timeout : ℕ) (answer : Option ResponseInfo)
    (info : ResponseInfo) (b_end : Bytes) (w_end : env.World) (b : Bytes) (w : env.World)
    → Waits env packet sent_at timeout answer b_end w_end b w
    → answer ≡ some info
    → HasCome env info b_end × (is_valid packet info b_end ≡ ok true)
Waits-HasCome env packet sent_at timeout answer info b_end w_end b w (expires _ e) f = cc
Waits-HasCome env packet sent_at timeout answer info b_end w_end b w (accepts {w'} i l c v e _) f =
    let same : i ≡ info = cc in
    (
      (
        b,
        _,
        (env.now w).1,
        w',
        subst
            (λ i.
              env.try_receiving b ((timeout - passed env sent_at w) / 1000) (env.now w).1
              ≡ ok (some i, b_end, w'))
            same c,
      ),
      subst (λ i. is_valid packet i b_end ≡ ok true) same v,
    )
Waits-HasCome env packet sent_at timeout answer info b_end w_end b w (goes_on {b'} {w'} _ _ _ _ h)
      f =
    Waits-HasCome env packet sent_at timeout answer info b_end w_end b' w' h f

-- A wait without an answer lasted until less than 10 microseconds of the timeout were left.
pub Waits-IsExpired :
    (env : Env) (packet : Packet) (sent_at timeout : ℕ) (answer : Option ResponseInfo)
    (b_end : Bytes) (w_end : env.World) (b : Bytes) (w : env.World)
    → Waits env packet sent_at timeout answer b_end w_end b w
    → answer ≡ none
    → (u : env.World) × IsExpired env timeout sent_at u
Waits-IsExpired env packet sent_at timeout answer b_end w_end b w (expires e _) f = (w, e)
Waits-IsExpired env packet sent_at timeout answer b_end w_end b w (accepts _ _ _ _ s _) f = cc
Waits-IsExpired env packet sent_at timeout answer b_end w_end b w (goes_on {b'} {w'} _ _ _ _ h) f =
    Waits-IsExpired env packet sent_at timeout answer b_end w_end b' w' h f
