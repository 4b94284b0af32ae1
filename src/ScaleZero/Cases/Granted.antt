-- ===== src/ScaleZero/Cases/Granted.antt =====
-- Scaling to zero on a server that grants every request.
use redkey_operator.Common.{Option, none, some, List, last?}
use redkey_operator.Api.Types.{Types}
use redkey_operator.Api.Redkey.{Redkey}
use redkey_operator.Api.Config.{RedkeyConfig}
use redkey_operator.Kube.Laws.{RetryLaw}
use redkey_operator.Kube.Action.{Env}
use redkey_operator.Kube.Does.{Does, Anything, Does-then}
use redkey_operator.Kube.Willing.{everything, Willing, pure_any, if_any}
use redkey_operator.Robin.Ensure.Granted.{ensure_rbac-granted, ensure_robin_deployment-granted}
use redkey_operator.Config.Granted.{list_configs-granted, create_new_config-granted}
use redkey_operator.Status.Aggregate.Granted.{aggregate_status-granted}
use redkey_operator.ScaleZero.Teardown.Granted.{
  delete_robin_deployment-granted, delete_rbac-granted, delete_all_configs-granted,
  update_status_scaled_to_zero-granted,
}
use redkey_operator.ScaleZero.Cases.{
  request_scale_to_zero, tear_down, await_scale_to_zero, scale_to_zero_cases,
  reconcile_scale_to_zero,
}

module _ {T : Types} {K : Env T} (willing : Willing K.kube) (law : RetryLaw K.kube) where
  pub tear_down-granted : (cluster : Redkey T) → Does (tear_down K cluster) Anything
  unfolding tear_down
  tear_down-granted cluster = Does-then (delete_robin_deployment-granted willing cluster) λ u.
      Does-then (delete_rbac-granted willing cluster) λ u.
        Does-then (delete_all_configs-granted willing cluster)
          λ u. update_status_scaled_to_zero-granted willing cluster

  request_scale_to_zero-granted :
      (cluster : Redkey T) (latest : RedkeyConfig T)
      → Does (request_scale_to_zero K cluster latest) Anything
  unfolding request_scale_to_zero
  request_scale_to_zero-granted cluster latest =
      Does-then (ensure_rbac-granted willing cluster) λ u.
        Does-then (ensure_robin_deployment-granted willing cluster) λ u.
          Does-then (create_new_config-granted willing everything cluster (some latest))
            λ u. pure_any cluster

  await_scale_to_zero-granted :
      (cluster : Redkey T) (configs : List (RedkeyConfig T))
      → Does (await_scale_to_zero K cluster configs) Anything
  unfolding await_scale_to_zero
  await_scale_to_zero-granted cluster configs = Does-then (ensure_rbac-granted willing cluster) λ u.
      Does-then (ensure_robin_deployment-granted willing cluster)
        λ u. aggregate_status-granted willing law everything cluster configs

  scale_to_zero_cases-granted :
      (cluster : Redkey T) (configs : List (RedkeyConfig T)) (latest : Option (RedkeyConfig T))
      → Does (scale_to_zero_cases K cluster configs latest) Anything
  unfolding scale_to_zero_cases
  scale_to_zero_cases-granted cluster configs none =
      update_status_scaled_to_zero-granted willing cluster
  scale_to_zero_cases-granted cluster configs (some latest) =
      if_any _ _ _
        (if_any _ _ _ (tear_down-granted cluster) (await_scale_to_zero-granted cluster configs))
        (request_scale_to_zero-granted cluster latest)

  pub reconcile_scale_to_zero-granted :
      (cluster : Redkey T) → Does (reconcile_scale_to_zero K cluster) Anything
  unfolding reconcile_scale_to_zero
  reconcile_scale_to_zero-granted cluster =
      Does-then (list_configs-granted willing everything cluster)
        λ configs. scale_to_zero_cases-granted cluster configs (last? configs)
