-- ===== src/Status.antt =====
-- internal/controller/redkey_config.go: the status of a Redkey, aggregated from its active config.
pub mod Conditions
pub mod Aggregate
