-- ===== src/Cmd.antt =====
-- cmd/main.go: the process entry.
pub mod Flags
pub mod Namespaces
pub mod Tls
pub mod Start
