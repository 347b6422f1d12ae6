-- ===== src/Lib.antt =====
-- A model of the traceroute library and the theorems about it.
--
-- The program probes the hops on the way to a target. A packet factory builds ICMP, TCP or UDP
-- packets; a data sender sends a packet with a time to live and receives messages; a packet decides
-- whether a message is its answer; a tracer runs the probes against a clock and reports, for each
-- hop, who answered and after which time.
--
-- Parts, files and sources:
--   Base            shared: tests, lists, outcomes of calls, memory reads, byte order
--   Address         src/SocketAddress.cpp
--   Header          include/Traceroute/HeaderTypes.hpp, src/utils/Serialize.hpp
--   Checksum        src/utils/ChecksumCalculator.cpp
--   Packet          src/Packet.cpp, src/Packet/*.cpp, src/PacketFactory/*.cpp
--   IpHeader        src/ResponseInfo.cpp, src/ResponseValidators/common.cpp
--   Validator       include/Traceroute/ResponseValidators/ResponseValidator.hpp and its .cpp
--   Response        the other files of src/ResponseValidators and their headers, isValid of src/Packet/*.cpp
--   Double          the arithmetic of `double` in src/Probe.cpp
--   Probe           include/Traceroute/Probe.hpp, src/Probe.cpp
--   Kernel          the system calls, as an interface
--   Sender          src/DataSender.cpp, src/utils/Poll.cpp, src/SystemClock.cpp,
--                   include/Traceroute/Socket.hpp
--   Sockets         src/utils/CreateSocket.cpp, src/utils/Bind.cpp, src/SocketProviders/*.cpp,
--                   src/ResolveSourceAddress.cpp
--   Tracer          src/Traceroute.cpp, include/Traceroute/interface/*.hpp
--   Sequential      src/SequentialTraceroute.cpp
--   Fast            src/FastTraceroute.cpp
--   Report          include/Traceroute/interface/ITraceroute.hpp
--   Examples        concrete hosts, runs and instances of the theorems
-- A function keeps its name in snake case (`computeChecksum` is `compute_checksum`), and a method of
-- a class hierarchy is one function on a data type with a constructor for each class.
--
-- Conventions. A call comes to an `Outcome`: a value, an exception, undefined behaviour (a read
-- out of the receive buffer, a null dereference) or the end of the fuel. Pointers into the receive
-- buffer are the bytes from the pointer to its end, so stale bytes behind a message are in the
-- model. Words are natural numbers with their wrap-around written out: `size_t` and `unsigned
-- long` have 64 bits, `unsigned` has 32. The machine is little-endian. Times and the counters of
-- the clock are not bounded. What comes from outside is a parameter: the draws of `rand` and the
-- value of an uninitialised field (`Draw`), the storage and the length that
-- `resolveSourceAddress` leaves uninitialised, the C library's `getaddrinfo` and `inet_pton`
-- (`Resolver`) and `inet_ntop` (`Printer`), and factory, network and clock (`Env`), whose promises
-- stand in `IsEnv`.
--
-- Fuel. The folding loop of the checksum is a recursion on accessibility and needs none. The loop
-- that waits for an answer takes one unit for each message; every message takes time on the clock,
-- so more units than nanoseconds in the timeout and a microsecond are enough. The loop over the
-- hops takes one unit for each hop and one for its end.
--
-- Threads. The fast tracer is a relation on states: a step of either thread is one call of an
-- interface or one section under the lock (`send_packets_step`, `receive_step`), and the steps
-- come in any order. Its loops are in the relation, so it needs no fuel. An exception of the
-- sending thread ends that thread; one of the receiving thread ends the run. The state of the
-- world behind the interfaces changes by whole calls. The packets that wait are a member of the
-- object that no call clears, so `Reach` says which of them earlier calls left: the invariants
-- hold for any. `Life` is the history of an object, calls that threw included; what holds in any
-- call is stated for it, and what needs an empty list of waiting packets for the first call.
-- `beginProbing` returns when the sending thread has ended too (`Joins`).
--
-- Objects. The buffer is a member of the object that no call clears (`Traceroute`). `History` tells
-- the objects of the sequential tracer after any calls, those that threw included; what holds of a
-- trace is stated for any call on them.
--
-- System calls. `Kernel` is the record of the calls and `IsKernel` what their callers rely on. The
-- tracers see the sender through `Env`; `make_env` fills it with a sender, a factory and the
-- clock. `Report.Wiring` goes from the sockets of a provider to the results.
--
-- Texts are lists of bytes. The quotient by 1000 that the program prints is computed as the
-- machine does (`Double`): the count and the quotient are rounded to 53 bits, ties to even, and
-- `std::to_string` rounds to six digits. A `double` is counted in units of 2 ^ -62, which are fine
-- enough for 53 bits of every quotient of a count; the spacing of the values is found in at most
-- 80 doublings, enough for 2 ^ 133 and so for counts of 64 bits. Theorems about printed times are
-- for less than 8 * 10 ^ 12 microseconds, where the six digits are exact.
--
-- Not modelled: the conversions between addresses and texts in the C library (parameters) and the
-- tests. Examples/Scripts and Examples/FastScripts run what the tests of the two tracers expect.
pub mod IpHeader
pub mod Validator
pub mod Report
pub mod Base
pub mod Address
pub mod Header
pub mod Checksum
pub mod Packet
pub mod Response
pub mod Probe
pub mod Kernel
pub mod Sender
pub mod Sockets
pub mod Tracer
pub mod Sequential
pub mod Double
pub mod Examples
pub mod Fast
