-- ===== src/Examples.antt =====
-- Concrete hosts and packets, runs of the code on them, and the theorems at concrete inputs.
mod Hosts
mod Addresses
mod Checksums
mod Packets
mod Quotes
mod Answers
mod Texts
mod Scripts
mod Traces
mod Threads
mod Passes
mod Failures
mod Reports
mod Leftovers
mod FastScripts
mod Kernels
