-- ===== src/Packet.antt =====
-- The `packet` part: include/packet/packet.hpp and src/packet/packet.cpp.
pub mod Types
pub mod Fields
pub mod Headers
pub mod DnsName
pub mod Dns
pub mod Decode
pub mod Pcap
pub mod Domains
