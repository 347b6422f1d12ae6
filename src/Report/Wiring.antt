-- ===== src/Report/Wiring.antt =====
-- Both tracers over the sockets of a provider: from the set-up of the sockets to the report.
use traceroute.Base.{ℕ, ◌⊎◌, List, All}
use traceroute.Address.{SocketAddress}
use traceroute.Packet.{Draw, PacketFactory}
use traceroute.Probe.{ProbeResult, TracerouteResult}
use traceroute.Kernel.{Kernel}
use traceroute.Tracer.Origin.{IsGivenUp}
use traceroute.Sender.{SocketExt, DataSender}
use traceroute.Sender.Stack.{make_env}
use traceroute.Sockets.{Provider}
use traceroute.Sockets.Providers.{IsOpened, provider_protocol}
use traceroute.Report.Machine.{IsDelivered, goal}

-- A delivered probe whose packet left a socket that the kernel opened for the family of the
-- source with the provider's protocol and bound to the source, and whose answer was read from a
-- socket that was opened so for the protocol that the answer carries.
pub record IsRouted (k : Kernel) (p : Provider) (source : SocketAddress) (d : DataSender)
    (sockets : List SocketExt) (f : PacketFactory) (ttl : ℕ) (r : ProbeResult) : Type 0 where
  pub delivered : IsDelivered k d sockets f ttl r
  pub sends :
      IsOpened k source (record { fd = d.sending_socket; protocol = provider_protocol p source })
  pub hears : IsOpened k source (record { fd = delivered.fd; protocol = delivered.info.protocol })

abbrev pub IsRoutedHop :
    (k : Kernel)
    → Provider
    → SocketAddress
    → (k.World → Draw × k.World)
    → DataSender
    → List SocketExt
    → PacketFactory
    → ℕ
    → TracerouteResult
    → Type 0
IsRoutedHop k p source rand d sockets f timeout r =
    All
      (λ (x : ProbeResult).
        IsRouted k p source d sockets f r.ttl x
        ⊎ IsGivenUp (make_env k rand d f) (goal f) timeout r.ttl x)
      r.probe_results
