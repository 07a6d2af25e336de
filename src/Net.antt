-- ===== src/Net.antt =====
-- The network stack: include/net and src/net.
pub mod Swap
pub mod Checksum
pub mod Route
pub mod Packet
pub mod Buffers
pub mod Interfaces
pub mod Addr
pub mod Arp
pub mod Eth
pub mod Ipv4
pub mod Icmp
