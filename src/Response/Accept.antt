-- ===== src/Response/Accept.antt =====
-- Which messages the validators accept. A message is an ICMP or TCP header behind an IP header,
-- as a raw IPv4 socket delivers it, or bare, as an IPv6 socket does; stale bytes may follow it.
pub mod Wrap
pub mod Icmp
pub mod Tcp
pub mod Udp
pub mod Own
