-- ===== src/Net.antt =====
-- agentos-kernel/src/net: checksums and the headers of ICMP, TCP, UDP, and DNS messages.
pub mod Checksum
pub mod Icmp
pub mod Tcp
pub mod Udp
pub mod Dns
mod Examples
