-- ===== src/Fast/System.antt =====
-- src/FastTraceroute.cpp: `sendPackets` and `receiveAndValidate` as two threads. A step of a
-- thread is one call of an interface, or one section under the lock; the steps of the two threads
-- come in any order.
use traceroute.Base.{
  ℕ, ◌+◌, ◌/◌, ◌%◌, ◌^◌, ◌≡◌, ltb, leb, if◌then◌else◌, Option, List, [], ◌∷◌, ◌++◌, length, Bytes,
  Outcome, ok, throw, undefined, out_of_fuel, send_failed, ◌>>=◌,
}
use traceroute.Packet.{Packet}
use traceroute.Response.{ResponseInfo}
use traceroute.Tracer.{Env, buffer_size}
use traceroute.Fast.{PacketToValidate, Locked, locked_section, keeps_waiting, expected_size}

-- The arguments of `beginProbing`; the timeout in microseconds.
pub record Request : Type 0 where
  pub ttl_begin : ℕ
  pub ttl_end : ℕ
  pub retries : ℕ
  pub timeout : ℕ

-- Where the sending thread stands in the body of its inner loop. An exception ends the thread,
-- and nobody reads it from the future.
pub data Stage : Type 0 where
  choosing : Stage
  created : Packet → Stage
  sent : Packet → Stage
  ended : Stage
  failed : Stage

pub record Sender : Type 0 where
  pub ttl : ℕ
  pub i : ℕ
  pub stage : Stage

-- Where the receiving thread stands; `got` holds what `tryReceiving` returned.
pub data Receiver : Type 0 where
  starting : Receiver
  checking : ℕ → Receiver
  receiving : ℕ → Receiver
  got : ℕ → Option ResponseInfo → Receiver
  left : Receiver

pub record System (W : Type 0) : Type 0 where
  pub sender : Sender
  pub receiver : Receiver
  pub buffer : Bytes
  pub locked : Locked W

-- Where a call leaves the sending thread; after an exception the world counts as it was before.
unfoldable pub catch_failure : {W : Type 0} → Outcome (Stage × W) → W → Outcome (Stage × W)
catch_failure (ok r) w = ok r
catch_failure (throw e) w = ok (failed, w)
catch_failure undefined w = undefined
catch_failure out_of_fuel w = out_of_fuel

unfoldable pub set_stage : {W : Type 0} → System W → Stage × W → System W
set_stage s (stage, w) = record {
  sender = record { ttl = s.sender.ttl; i = s.sender.i; stage = stage };
  receiver = s.receiver;
  buffer = s.buffer;
  locked = record { packets = s.locked.packets; results = s.locked.results; world = w };
}

module _ (env : Env) (q : Request) where
  unfoldable pub create : env.World → Outcome (Stage × env.World)
  create w = do (packet, w') ← env.create_packet w; ok (created packet, w')

  -- `trySending(packet, ttl, seconds(5))`.
  unfoldable pub send : ℕ → Packet → env.World → Outcome (Stage × env.World)
  send ttl packet w = do
    (success, w') ← env.try_sending packet ttl 5000 w
    if success then ok (sent packet, w') else throw send_failed

  -- `mPacketsToBeValidated.push_back(…)` under the lock, and `++i`.
  unfoldable pub push_packet : Packet → System env.World → System env.World
  push_packet packet s =
      let (t, w') = env.now s.locked.world in
      record {
        sender = record { ttl = s.sender.ttl; i = (s.sender.i + 1) % 2 ^ 32; stage = choosing };
        receiver = s.receiver;
        buffer = s.buffer;
        locked = record {
          packets =
              s.locked.packets
              ++ (record { packet = packet; sent_at = t; ttl = s.sender.ttl; retry = s.sender.i }
                  ∷ []);
          results = s.locked.results;
          world = w';
        };
      }

  -- The conditions of the two `for` loops, and `createPacket` in the body of the inner one.
  unfoldable pub choose : System env.World → Outcome (System env.World)
  unfolding set_stage
  choose s =
      if leb s.sender.ttl q.ttl_end
      then (if ltb s.sender.i q.retries
          then (do r ← catch_failure (create s.locked.world) s.locked.world; ok (set_stage s r))
          else ok record {
            sender = record { ttl = (s.sender.ttl + 1) % 2 ^ 32; i = 0; stage = choosing };
            receiver = s.receiver;
            buffer = s.buffer;
            locked = s.locked;
          })
      else ok (set_stage s (ended, s.locked.world))

  unfoldable pub send_packets_step : Stage → System env.World → Outcome (System env.World)
  send_packets_step choosing s = choose s
  send_packets_step (created packet) s = do
    r ← catch_failure (send s.sender.ttl packet s.locked.world) s.locked.world
    ok (set_stage s r)
  send_packets_step (sent packet) s = ok (push_packet packet s)
  send_packets_step ended s = ok s
  send_packets_step failed s = ok s

  unfoldable pub set_receiver :
      System env.World → Receiver → Bytes → Locked env.World → System env.World
  set_receiver s receiver buffer locked = record {
    sender = s.sender;
    receiver = receiver;
    buffer = buffer;
    locked = locked;
  }

  unfoldable pub set_world : Locked env.World → env.World → Locked env.World
  set_world l w = record { packets = l.packets; results = l.results; world = w }

  -- `beginAt`, the condition of the `while` loop, `tryReceiving`, and the section under the lock.
  unfoldable pub receive_step : Receiver → System env.World → Outcome (System env.World)
  receive_step starting s =
      let (t, w') = env.now s.locked.world in
      ok (set_receiver s (checking t) s.buffer (set_world s.locked w'))
  receive_step (checking begin_at) s =
      let (waits, w') =
        keeps_waiting env begin_at (expected_size q.ttl_begin q.ttl_end q.retries) q.timeout
          s.locked.results s.locked.world in
      ok (
        set_receiver s (if waits then receiving begin_at else left) s.buffer
          (set_world s.locked w'))
  receive_step (receiving begin_at) s = do
    (resp, buffer, w') ← env.try_receiving s.buffer (q.timeout / 1000) s.locked.world
    ok (set_receiver s (got begin_at resp) buffer (set_world s.locked w'))
  receive_step (got begin_at resp) s = do
    locked ← locked_section env q.timeout resp s.buffer s.locked
    ok (set_receiver s (checking begin_at) s.buffer locked)
  receive_step left s = ok s

  -- An exception of the receiving thread ends `beginProbing`, so it has no step.
  pub data Step : System env.World → System env.World → Type 0 where
    sends : (s s' : System env.World) → send_packets_step s.sender.stage s ≡ ok s' → Step s s'
    receives : (s s' : System env.World) → receive_step s.receiver s ≡ ok s' → Step s s'

  -- `mPacketsToBeValidated` of the object is not cleared: `packets` are those that an earlier
  -- call left.
  unfoldable pub start : List PacketToValidate → Bytes → env.World → System env.World
  start packets buffer w = record {
    sender = record { ttl = q.ttl_begin; i = 0; stage = choosing };
    receiver = starting;
    buffer = buffer;
    locked = record { packets = packets; results = []; world = w };
  }

  -- The states of a call on an object in which earlier calls left the packets `old`, none if it
  -- is the first.
  pub data Reach (old : List PacketToValidate) : System env.World → Type 0 where
    begins :
        (buffer : Bytes) (w : env.World)
        → length buffer ≡ buffer_size
        → Reach old (start old buffer w)
    steps : (s s' : System env.World) → Reach old s → Step s s' → Reach old s'
