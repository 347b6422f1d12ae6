-- ===== src/Tracer.antt =====
-- src/Traceroute.cpp and the interfaces under include/Traceroute/interface: what both tracers
-- share. The clock counts nanoseconds, as `steady_clock` does; durations are microseconds, and
-- `tryReceiving` and `trySending` take milliseconds.
pub mod Origin
use traceroute.Base.{
  replicate, ℕ, ◌-◌, ◌/◌, ◌≤◌, ◌<◌, ◌≡◌, Bool, Option, Bytes, length, ltb, if◌then◌else◌, Outcome,
  ok, IsDefined,
}
use traceroute.Address.{SocketAddress}
use traceroute.Packet.{Packet, get_destination_address}
use traceroute.Response.{ResponseInfo}

-- `MinTimeWaitForResponse`, in microseconds.
abbrev pub min_time_wait_for_response : ℕ
min_time_wait_for_response = 10

-- `BufferSize`.
abbrev pub buffer_size : ℕ
buffer_size = 4096

-- `IPacketFactory`, `IDataSender` and `ISystemClock` over the state of the world behind them: the
-- packet's class and addresses, the network and the clock. `try_receiving` is given the buffer
-- and returns it with the message written to its front.
pub record Env : Type 1 where
  pub World : Type 0
  pub create_packet : World → Outcome (Packet × World)
  pub try_sending : Packet → ℕ → ℕ → World → Outcome (Bool × World)
  pub try_receiving : Bytes → ℕ → World → Outcome (Option ResponseInfo × Bytes × World)
  pub now : World → ℕ × World

-- What the callers rely on. The clock does not go back, and time passes while a message is
-- awaited; a call returns or throws; a message does not change the length of the buffer; all
-- packets of a factory go to one destination.
pub record IsEnv (env : Env) (target : SocketAddress) : Type 0 where
  pub time : env.World → ℕ
  pub now_reads : (w : env.World) → (time w ≤ (env.now w).0) × ((env.now w).0 ≤ time (env.now w).1)
  pub create_defined : (w : env.World) → IsDefined (env.create_packet w)
  pub create_lem :
      (w w' : env.World) (p : Packet)
      → env.create_packet w ≡ ok (p, w')
      → (get_destination_address p ≡ target) × (time w ≤ time w')
  pub sending_defined :
      (p : Packet) (ttl t : ℕ) (w : env.World) → IsDefined (env.try_sending p ttl t w)
  pub sending_lem :
      (p : Packet) (ttl t : ℕ) (w w' : env.World) (sent : Bool)
      → env.try_sending p ttl t w ≡ ok (sent, w')
      → time w ≤ time w'
  pub receiving_defined : (b : Bytes) (t : ℕ) (w : env.World) → IsDefined (env.try_receiving b t w)
  pub receiving_lem :
      (b b' : Bytes) (t : ℕ) (w w' : env.World) (r : Option ResponseInfo)
      → env.try_receiving b t w ≡ ok (r, b', w')
      → (time w < time w') × (length b' ≡ length b)

-- An object of a class under `Traceroute`. Its factory, its sender and its clock are the `Env`;
-- the buffer is its own, and keeps from call to call what was received.
pub record Traceroute (env : Env) : Type 0 where
  pub buffer : Bytes

-- `Traceroute::Traceroute`, to which the constructors of both classes hand their arguments on;
-- `mBuffer` is made of zeros.
unfoldable pub make_traceroute : (env : Env) → Traceroute env
make_traceroute env = record { buffer = replicate buffer_size 0 }

module _ (env : Env) where
  unfoldable pub get_time_passed_till_now : ℕ → env.World → ℕ × env.World
  get_time_passed_till_now then_ w = let (t, w') = env.now w in ((t - then_) / 1000, w')

  unfoldable pub get_time_left : ℕ → ℕ → env.World → ℕ × env.World
  unfolding get_time_passed_till_now
  get_time_left then_ timeout w =
      let (time_passed, w') = get_time_passed_till_now then_ w in
      (if ltb timeout time_passed then 0 else timeout - time_passed, w')
