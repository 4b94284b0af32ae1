-- ===== src/ScaleZero.antt =====
-- internal/controller/redkey_scale_zero.go: a cluster with no primaries.
pub mod Teardown
pub mod Cases
