-- ===== src/Kube/Collectors.antt =====
-- The Prometheus collectors of internal/controller/metrics.go, behind the client library's
-- operations on them.
use redkey_operator.Common.{ℕ, String, Option, List}
use redkey_operator.Api.Types.{Time}

pub data GaugeVec : Type 0 where
  redkey_phase redkey_config_phase redkey_operation_in_progress : GaugeVec

pub data CounterVec : Type 0 where
  redkey_operation_total redkey_reconcile_stage_errors redkey_config_creations : CounterVec
  redkey_cleanup_deleted_configs redkey_robin_deployment_changes : CounterVec

pub data HistogramVec : Type 0 where
  redkey_operation_duration redkey_time_to_ready : HistogramVec

pub record Collectors : Type 1 where
  pub Registry : Type 0
  -- `WithLabelValues(namespace, name, third).Set(value)`
  pub set_gauge : GaugeVec → String → String → String → ℕ → Registry → Registry
  -- `DeletePartialMatch` by namespace and name
  pub delete_partial_match : GaugeVec → String → String → Registry → Registry
  -- `WithLabelValues(labels…).Inc()`
  pub inc : CounterVec → List String → Registry → Registry
  -- `WithLabelValues(labels…).Observe(d.Seconds())`
  pub observe : HistogramVec → List String → Time → Registry → Registry
  -- what a scrape reads
  pub gauge : GaugeVec → String → String → String → Registry → Option ℕ
  pub counter : CounterVec → List String → Registry → ℕ
  pub samples : HistogramVec → List String → Registry → ℕ
