-- ===== src/Metrics/Record/Silent.antt =====
-- The metrics send nothing to the API server.
use redkey_operator.Common.{Option, none, some}
use redkey_operator.Api.Types.{Types}
use redkey_operator.Api.Meta.{NamespacedName}
use redkey_operator.Api.Config.{RedkeyConfig}
use redkey_operator.Api.Redkey.{Redkey}
use redkey_operator.Kube.Client.{Write}
use redkey_operator.Kube.Action.{Env}
use redkey_operator.Kube.Keeps.{Keeps, Any}
use redkey_operator.Kube.Sent.{Sent, sent_rules}
use redkey_operator.Metrics.Trackers.Silent.{
  observe_operation-Sent, forget_operation-Sent, entered_ready-Sent, forget_readiness-Sent,
}
use redkey_operator.Metrics.Record.{record_config, record_redkey_metrics, delete_redkey_metrics}

module _ {T : Types} (K : Env T) {Q : Write T → Type 0} where
  record_config-Sent :
      (cluster : Redkey T) (active : RedkeyConfig T)
      → Keeps (Sent Q) (record_config K cluster active) Any
  unfolding record_config
  record_config-Sent cluster active = search (sent_rules, entered_ready-Sent) depth 9

  pub record_redkey_metrics-Sent :
      (cluster : Redkey T) (active : Option (RedkeyConfig T))
      → Keeps (Sent Q) (record_redkey_metrics K cluster active) Any
  unfolding record_redkey_metrics
  record_redkey_metrics-Sent cluster none = search (sent_rules, observe_operation-Sent) depth 9
  record_redkey_metrics-Sent cluster (some active) =
      search (sent_rules, observe_operation-Sent, record_config-Sent) depth 9

  pub delete_redkey_metrics-Sent :
      (key : NamespacedName) → Keeps (Sent Q) (delete_redkey_metrics K key) Any
  unfolding delete_redkey_metrics
  delete_redkey_metrics-Sent key =
      search (sent_rules, forget_operation-Sent, forget_readiness-Sent) depth 9
