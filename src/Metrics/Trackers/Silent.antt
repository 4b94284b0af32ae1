-- ===== src/Metrics/Trackers/Silent.antt =====
-- The trackers send nothing to the API server.
use redkey_operator.Common.{String, Option, none, some}
use redkey_operator.Api.Types.{Types}
use redkey_operator.Api.Meta.{NamespacedName}
use redkey_operator.Kube.Client.{Write}
use redkey_operator.Kube.Action.{Env, ActiveOperation}
use redkey_operator.Kube.Keeps.{Keeps, Any, Keeps-then}
use redkey_operator.Kube.Sent.{Sent, sent_rules, Keeps-clock}
use redkey_operator.Metrics.Trackers.{
  set_active, start_operation, finish_operation, observe_tracked, observe_operation,
  forget_operation, entered_ready, forget_readiness,
}

module _ {T : Types} (K : Env T) {Q : Write T → Type 0} where
  set_active-Sent :
      (key : NamespacedName) (op : Option ActiveOperation)
      → Keeps (Sent Q) (set_active K key op) Any
  set_active-Sent key op = record { at = λ s h. (record { all = h.all }, tt) }

  start_operation-Sent :
      (key : NamespacedName) (status : String) → Keeps (Sent Q) (start_operation K key status) Any
  unfolding start_operation
  start_operation-Sent key status = Keeps-then _ _ Keeps-clock λ t. set_active-Sent key _

  finish_operation-Sent :
      (current : ActiveOperation) (result : String)
      → Keeps (Sent Q) (finish_operation K current result) Any
  unfolding finish_operation
  finish_operation-Sent current result = search sent_rules

  observe_tracked-Sent :
      (key : NamespacedName) (status phase : String) (tracked : Option ActiveOperation)
      → Keeps (Sent Q) (observe_tracked K key status phase tracked) Any
  unfolding observe_tracked
  observe_tracked-Sent key status phase none = search (sent_rules, start_operation-Sent, tt)
  observe_tracked-Sent key status phase (some current) =
      search (sent_rules, start_operation-Sent, finish_operation-Sent, set_active-Sent, tt)

  pub observe_operation-Sent :
      (key : NamespacedName) (status phase : String)
      → Keeps (Sent Q) (observe_operation K key status phase) Any
  unfolding observe_operation
  observe_operation-Sent key status phase = record {
    at = λ s h. (observe_tracked-Sent key status phase (s.active key)).at s h;
  }

  pub forget_operation-Sent : (key : NamespacedName) → Keeps (Sent Q) (forget_operation K key) Any
  unfolding forget_operation
  forget_operation-Sent key = set_active-Sent key none

  pub entered_ready-Sent :
      (key : NamespacedName) (phase : String) → Keeps (Sent Q) (entered_ready K key phase) Any
  unfolding entered_ready
  entered_ready-Sent key phase = record { at = λ s h. (record { all = h.all }, tt) }

  pub forget_readiness-Sent : (key : NamespacedName) → Keeps (Sent Q) (forget_readiness K key) Any
  unfolding forget_readiness
  forget_readiness-Sent key = record { at = λ s h. (record { all = h.all }, tt) }
