-- ===== src/Fast/Heard.antt =====
-- Where the results come from: the steps of the receiving thread.
use traceroute.Base.{
  ℕ, ◌≡◌, Bool, Option, none, some, ◌/◌, if◌then◌else◌, true, false, Bytes, ok, first_call,
  ok-injective, subst,
}
use traceroute.Address.{SocketAddress}
use traceroute.Response.{ResponseInfo}
use traceroute.Tracer.{Env, IsEnv}
use traceroute.Tracer.Origin.{IsAimed, IsSent, HasCome}
use traceroute.Fast.{locked_section}
use traceroute.Fast.System.{
  Request, Stage, choosing, created, sent, ended, failed, Receiver, starting, checking, receiving,
  got, left, System, set_receiver, set_world, receive_step,
}
use traceroute.Fast.Origin.{IsTold, locked_section-IsTold}

-- The packet in the hands of the sender was made for the target; once sent, it left with the
-- hop's time to live.
abbrev pub IsUnderWay : (env : Env) → SocketAddress → ℕ → Stage → Type 0
IsUnderWay env target ttl choosing = Unit
IsUnderWay env target ttl (created packet) = IsAimed env target packet
IsUnderWay env target ttl (sent packet) = IsAimed env target packet × IsSent env packet ttl
IsUnderWay env target ttl ended = Unit
IsUnderWay env target ttl failed = Unit

-- The message in the hands of the receiver is the one in the buffer.
abbrev pub IsHeard : (env : Env) → Receiver → Bytes → Type 0
IsHeard env starting buffer = Unit
IsHeard env (checking b) buffer = Unit
IsHeard env (receiving b) buffer = Unit
IsHeard env (got b none) buffer = Unit
IsHeard env (got b (some info)) buffer = HasCome env info buffer
IsHeard env left buffer = Unit

pub record IsAttributed (env : Env) (target : SocketAddress) (timeout : ℕ) (s : System env.World)
    : Type 0 where
  pub under_way : IsUnderWay env target s.sender.ttl s.sender.stage
  pub heard : IsHeard env s.receiver s.buffer
  pub told : IsTold env target timeout s.locked

module _ (env : Env) (q : Request) {target : SocketAddress} (laws : IsEnv env target) where
  heard-HasCome :
      (b : ℕ) (resp : Option ResponseInfo) (buffer : Bytes)
      → IsHeard env (got b resp) buffer
      → (info : ResponseInfo) → resp ≡ some info
      → HasCome env info buffer
  heard-HasCome b none buffer h info e = cc
  heard-HasCome b (some info') buffer h info e =
      let same : info' ≡ info = cc in subst (λ i. HasCome env i buffer) same h

  receive-IsHeard :
      (b t : ℕ) (before buffer : Bytes) (w w' : env.World) (resp : Option ResponseInfo)
      → env.try_receiving before t w ≡ ok (resp, buffer, w')
      → IsHeard env (got b resp) buffer
  receive-IsHeard b t before buffer w w' none e = tt
  receive-IsHeard b t before buffer w w' (some info) e = (before, t, w, w', e)

  checked-IsHeard :
      (waits : Bool) (b : ℕ) (buffer : Bytes)
      → IsHeard env (if waits then receiving b else left) buffer
  checked-IsHeard true b buffer = tt
  checked-IsHeard false b buffer = tt

  pub receive_step-IsAttributed :
      (r : Receiver) (s s' : System env.World)
      → s.receiver ≡ r
      → IsAttributed env target q.timeout s
      → receive_step env q r s ≡ ok s'
      → IsAttributed env target q.timeout s'
  unfolding receive_step set_receiver set_world
  receive_step-IsAttributed starting s s' c h e =
      subst (IsAttributed env target q.timeout) (ok-injective _ _ e)
        (record { under_way = h.under_way; heard = tt; told = h.told })
  receive_step-IsAttributed (checking b) s s' c h e =
      subst (IsAttributed env target q.timeout) (ok-injective _ _ e)
        (record { under_way = h.under_way; heard = checked-IsHeard _ b s.buffer; told = h.told })
  receive_step-IsAttributed (receiving b) s s' c h e =
      let ((resp, buffer, w'), f, k) =
        first_call (env.try_receiving s.buffer (q.timeout / 1000) s.locked.world) e in
      subst (IsAttributed env target q.timeout) (ok-injective _ _ k) (record {
        under_way = h.under_way;
        heard = receive-IsHeard b _ s.buffer buffer _ w' resp f;
        told = h.told;
      })
  receive_step-IsAttributed (got b resp) s s' c h e =
      let (l, f, k) = first_call (locked_section env q.timeout resp s.buffer s.locked) e in
      let heard : IsHeard env (got b resp) s.buffer =
        subst (λ r. IsHeard env r s.buffer) c h.heard in
      subst (IsAttributed env target q.timeout) (ok-injective _ _ k) (record {
        under_way = h.under_way;
        heard = tt;
        told =
            locked_section-IsTold env laws q.timeout resp s.buffer s.locked l
              (heard-HasCome b resp s.buffer heard) h.told f;
      })
  receive_step-IsAttributed left s s' c h e =
      subst (IsAttributed env target q.timeout) (ok-injective _ _ e) h
