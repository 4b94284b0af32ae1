-- ===== src/Status/Aggregate/Granted.antt =====
-- aggregateStatus on a server that grants every request.
use redkey_operator.Common.{All, Option, none, some, List}
use redkey_operator.Api.Types.{Types}
use redkey_operator.Api.Config.{RedkeyConfig}
use redkey_operator.Api.Redkey.{Redkey}
use redkey_operator.Kube.Laws.{RetryLaw}
use redkey_operator.Kube.Client.{Write}
use redkey_operator.Kube.Action.{Env}
use redkey_operator.Kube.Does.{Does, Does-then, Does-clock, Does-retry}
use redkey_operator.Kube.Willing.{
  Willing, Allows, Does-Sends, send_status_allowed, after_read, pure_any,
}
use redkey_operator.Config.Sequence.{select_active_config}
use redkey_operator.Status.Aggregate.{refresh_status, aggregate_with, aggregate_status}

module _ {T : Types} {K : Env T} (willing : Willing K.kube) (law : RetryLaw K.kube)
    {Q : Write T → Type 0} (allows : Allows Q) where
  refresh_status-granted :
      (cluster : Redkey T) (active : RedkeyConfig T)
      → Does (refresh_status K cluster active) (λ x ws. All Q ws)
  unfolding refresh_status
  refresh_status-granted cluster active = after_read _ _ (willing.redkey _) λ latest.
      Does-then (Does-Sends Does-clock) λ t. send_status_allowed willing _ (allows.status _)

  aggregate_with-granted :
      (cluster : Redkey T) (active : Option (RedkeyConfig T))
      → Does (aggregate_with K cluster active) (λ x ws. All Q ws)
  unfolding aggregate_with
  aggregate_with-granted cluster none = pure_any cluster
  aggregate_with-granted cluster (some active) =
      Does-then (Does-retry _ _ law (refresh_status-granted cluster active)) λ d. pure_any _

  pub aggregate_status-granted :
      (cluster : Redkey T) (configs : List (RedkeyConfig T))
      → Does (aggregate_status K cluster configs) (λ x ws. All Q ws)
  unfolding aggregate_status
  aggregate_status-granted cluster configs =
      aggregate_with-granted cluster (select_active_config configs)
