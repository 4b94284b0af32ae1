-- ===== src/Metrics.antt =====
-- internal/controller/metrics.go: the fleet-state metrics and the trackers behind them.
pub mod Trackers
pub mod Record
