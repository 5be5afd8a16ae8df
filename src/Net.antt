-- ===== src/Net.antt =====
-- net: frames, packets and datagrams.
pub mod Packet
pub mod Roundtrip
pub mod Checksum
pub mod Dhcp
mod Tests
