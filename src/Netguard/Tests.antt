-- ===== src/Netguard/Tests.antt =====
-- netguard.go: runs at concrete inputs, and the theorems at such inputs.
mod Rules
mod Proxies
