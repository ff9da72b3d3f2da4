-- ===== src/Net.antt =====
-- src/kernel/net: sockets, and the packets that they send and receive.
pub mod Checksum
pub mod Ipv4
pub mod Message
pub mod Udp
pub mod Icmp
pub mod Calls
pub mod E1000
