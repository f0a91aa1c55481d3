-- ===== src/Routing.antt =====
-- artdaq/RoutingPolicies and artdaq/DAQrate/detail/RoutingPacket.hh: how a RoutingManager turns the
-- tokens of free receivers into a table from sequence IDs to receiver ranks.
pub mod Packet
pub mod Tokens
pub mod Restore
pub mod Turns
pub mod Policy
pub mod RoundRobin
pub mod NoOp
pub mod CapacityTest
pub mod PreferSameHost
pub mod Manager
mod Tests
