-- ===== src/Config.antt =====
-- internal/controller/redkey_config.go: the sequence of RedkeyConfigs of a cluster. The aggregation
-- of their status is in `Status`.
pub mod Sequence
pub mod Create
pub mod Cleanup
pub mod Granted
pub mod Orderly
