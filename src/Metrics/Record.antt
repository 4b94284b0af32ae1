-- ===== src/Metrics/Record.antt =====
-- metrics.go: recordRedkeyMetrics and deleteRedkeyMetrics.
pub mod Silent
pub mod Total
pub mod Gauges
use redkey_operator.Common.{
  ℕ, String, Bool, true, false, ◌==◌, Option, none, some, List, [], ◌∷◌, if◌then◌else◌,
}
use redkey_operator.Common.Int.{◌-ℤ◌}
use redkey_operator.Api.Types.{Types, Time}
use redkey_operator.Api.Meta.{NamespacedName}
use redkey_operator.Api.Config.{
  RedkeyConfig, config_phase_pending, config_phase_in_progress, config_phase_superseded,
  config_phase_applied,
}
use redkey_operator.Api.Redkey.{Redkey, phase_ready, phase_configuring, phase_error}
use redkey_operator.Kube.Collectors.{
  GaugeVec, redkey_phase, redkey_config_phase, redkey_operation_in_progress, redkey_time_to_ready,
}
use redkey_operator.Kube.Action.{Env, Action, ◌>>=◌, ◌>>◌, pure, when, clock, emit}
use redkey_operator.Metrics.Trackers.{
  in_operation, observe_operation, forget_operation, entered_ready, forget_readiness,
}

abbrev pub redkey_phase_values : List String
redkey_phase_values = phase_ready ∷ phase_configuring ∷ phase_error ∷ []

abbrev pub redkey_config_phase_values : List String
redkey_config_phase_values =
    config_phase_pending ∷ config_phase_in_progress ∷ config_phase_superseded ∷ config_phase_applied
    ∷ []

module _ {T : Types} (K : Env T) where
  -- The loops that write a state set: 1 on the active value, 0 on every other.
  unfoldable pub set_states :
      GaugeVec → String → String → String → List String → K.Registry → K.Registry
  set_states vec ns name active [] r = r
  set_states vec ns name active (value ∷ values) r =
      set_states vec ns name active values
        (K.set_gauge vec ns name value (if value == active then 1 else 0) r)

  -- The gauge of the operation under way.
  unfoldable pub set_in_progress : String → String → String → K.Registry → K.Registry
  unfolding in_operation
  set_in_progress ns name status r =
      let cleared = K.delete_partial_match redkey_operation_in_progress ns name r in
      if in_operation status
      then K.set_gauge redkey_operation_in_progress ns name status 1 cleared
      else cleared

  -- The end of `recordRedkeyMetrics`, where there is an active config.
  record_config : Redkey T → RedkeyConfig T → Action K (Unit {0})
  unfolding set_states entered_ready
  record_config cluster config = do
    emit (
        set_states redkey_config_phase cluster.meta.namespace cluster.meta.name
          config.status.config_phase redkey_config_phase_values)
    entered ←
        entered_ready K (record { namespace = cluster.meta.namespace; name = cluster.meta.name })
          cluster.status.phase
    when entered (do
      t ← clock
      emit (K.observe redkey_time_to_ready [] (t -ℤ config.meta.creation_timestamp)))

  unfoldable pub record_redkey_metrics : Redkey T → Option (RedkeyConfig T) → Action K (Unit {0})
  unfolding observe_operation set_in_progress set_states record_config
  record_redkey_metrics cluster active_config = do
    observe_operation K (record { namespace = cluster.meta.namespace; name = cluster.meta.name })
        cluster.status.status cluster.status.phase
    emit (set_in_progress cluster.meta.namespace cluster.meta.name cluster.status.status)
    emit (
        set_states redkey_phase cluster.meta.namespace cluster.meta.name cluster.status.phase
          redkey_phase_values)
    elim active_config [
      | none ↦
          emit (K.delete_partial_match redkey_config_phase cluster.meta.namespace cluster.meta.name)
      | some config ↦ record_config cluster config
    ]

  unfoldable pub delete_redkey_metrics : NamespacedName → Action K (Unit {0})
  unfolding forget_operation forget_readiness
  delete_redkey_metrics key = do
    emit (K.delete_partial_match redkey_phase key.namespace key.name)
    emit (K.delete_partial_match redkey_config_phase key.namespace key.name)
    emit (K.delete_partial_match redkey_operation_in_progress key.namespace key.name)
    forget_operation K key
    forget_readiness K key
