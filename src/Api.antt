-- ===== src/Api.antt =====
-- The API types of the operator: api/v1beta1, and the parts of the Kubernetes types that the
-- operator reads or writes.
pub mod Types
pub mod Meta
pub mod Override
pub mod Redkey
pub mod Config
pub mod Workload
