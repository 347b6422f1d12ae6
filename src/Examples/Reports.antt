-- ===== src/Examples/Reports.antt =====
-- The answers of the tracers as a caller of the interface sees them.
use traceroute.Base.{[], refl, arith}
use traceroute.Packet.{udp_factory, PacketFactory}
use traceroute.Fast.Heard.{IsAttributed}
use traceroute.Fast.Attribution.{Reach-IsAttributed}
use traceroute.Report.{concurrently}
use traceroute.Report.Promise.{IsReport}
use traceroute.Report.Contract.{Returns-IsReport}
use traceroute.Examples.Hosts.{home, server}
use traceroute.Examples.Traces.{network, network-IsEnv}
use traceroute.Examples.Threads.{
  request, request-IsRequest, last_state, last_state-Reach, answers, last_state-finish,
}

Reach-IsAttributed_example : IsAttributed network server request.timeout last_state
Reach-IsAttributed_example =
    Reach-IsAttributed network request network-IsEnv [] last_state tt last_state-Reach

Returns-IsReport_example : IsReport network server request answers
Returns-IsReport_example =
    Returns-IsReport network server request answers network-IsEnv request-IsRequest (omega arith)
      (concurrently last_state answers last_state-Reach refl last_state-finish)

abbrev factory : PacketFactory
factory = udp_factory (record { source = home; destination = server; dport = 33434 })
