-- ===== src/Status/Aggregate/Writes.antt =====
-- What aggregateStatus sends.
use redkey_operator.Common.{Option, none, some, List}
use redkey_operator.Api.Types.{Types}
use redkey_operator.Api.Config.{RedkeyConfig}
use redkey_operator.Api.Redkey.{Redkey}
use redkey_operator.Kube.Client.{Write, update_status}
use redkey_operator.Kube.Action.{Env}
use redkey_operator.Kube.Laws.{RetryLaw}
use redkey_operator.Kube.Keeps.{Keeps, Any, Keeps-then, Keeps-pure, Keeps-retry}
use redkey_operator.Kube.Sent.{Sent, sent_rules}
use redkey_operator.Config.Sequence.{select_active_config}
use redkey_operator.Status.Aggregate.{refresh_status, aggregate_with, aggregate_status}

module _ {T : Types} (K : Env T) (law : RetryLaw K.kube) (Q : Write T → Type 0)
    (allowed : (c : Redkey T) → Q (update_status c)) where
  refresh_status-Sent :
      (cluster : Redkey T) (active : RedkeyConfig T)
      → Keeps (Sent Q) (refresh_status K cluster active) Any
  unfolding refresh_status
  refresh_status-Sent cluster active = search (sent_rules, allowed) depth 8

  -- However often the update is retried, only status updates are sent.
  pub aggregate_status-Sent :
      (cluster : Redkey T) (configs : List (RedkeyConfig T))
      → Keeps (Sent Q) (aggregate_status K cluster configs) Any
  unfolding aggregate_status
  aggregate_status-Sent cluster configs = by_active (select_active_config configs)
    where
      by_active :
          (active : Option (RedkeyConfig T)) → Keeps (Sent Q) (aggregate_with K cluster active) Any
      by_active none = Keeps-pure _ tt
      by_active (some active) =
          Keeps-then _ _ (Keeps-retry law _ (refresh_status-Sent cluster active))
            λ _. Keeps-pure _ tt
