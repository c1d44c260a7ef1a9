-- ===== src/Netguard.antt =====
-- netguard.go: the network allowlist and the proxies that enforce it.
pub mod Allowlist
pub mod Dial
pub mod Socks
pub mod Message
pub mod Http
mod Tests
