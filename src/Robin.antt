-- ===== src/Robin.antt =====
-- internal/controller/redkey_robin.go: the objects that run Robin for a cluster.
pub mod Merge
pub mod Env
pub mod Deployment
pub mod Annotations
pub mod Ensure
