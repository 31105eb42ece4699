-- ===== src/Net.antt =====
-- The network software of the board, sw/rv32.
pub mod State
pub mod Packet
pub mod Ether
pub mod Checksum
pub mod Ip
pub mod Arp
pub mod Bytes
pub mod ChecksumLaws
pub mod IpLaws
pub mod ArpLaws
pub mod ArpUpdate
pub mod Message
pub mod PingTest
pub mod Memory
pub mod MemorySends
pub mod MemoryRounds
pub mod MemoryLoop
