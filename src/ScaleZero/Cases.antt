-- ===== src/ScaleZero/Cases.antt =====
-- redkey_scale_zero.go: reconcileScaleToZero.
pub mod KeepsRobin
pub mod Granted
pub mod RemovesAll
use redkey_operator.Common.{Bool, ◌==◌, Option, none, some, List, [], ◌∷◌, if◌then◌else◌, last?}
use redkey_operator.Common.Int.{ℤ, pos, eqb_ℤ}
use redkey_operator.Api.Types.{Types}
use redkey_operator.Api.Config.{RedkeyConfig}
use redkey_operator.Api.Redkey.{Redkey}
use redkey_operator.Kube.Action.{Env, Action, ◌>>=◌, ◌>>◌, pure}
use redkey_operator.Robin.Ensure.{ensure_rbac, ensure_robin_deployment}
use redkey_operator.Config.Sequence.{list_configs, is_applied}
use redkey_operator.Config.Create.{create_new_config}
use redkey_operator.Status.Aggregate.{aggregate_status}
use redkey_operator.ScaleZero.Teardown.{
  delete_robin_deployment, delete_rbac, delete_all_configs, update_status_scaled_to_zero,
}

module _ {T : Types} (K : Env T) where
  -- Case B: Robin stays, and gets a config with no primaries.
  unfoldable pub request_scale_to_zero : Redkey T → RedkeyConfig T → Action K (Redkey T)
  unfolding ensure_rbac ensure_robin_deployment create_new_config
  request_scale_to_zero cluster latest = do
    ensure_rbac K cluster
    ensure_robin_deployment K cluster
    create_new_config K cluster (some latest)
    pure cluster

  -- Case C: Robin is done, and the operator removes what it made.
  unfoldable pub tear_down : Redkey T → Action K (Redkey T)
  unfolding delete_robin_deployment delete_rbac delete_all_configs update_status_scaled_to_zero
  tear_down cluster = do
    delete_robin_deployment K cluster
    delete_rbac K cluster
    delete_all_configs K cluster
    update_status_scaled_to_zero K cluster

  -- Case D: Robin is at work.
  unfoldable pub await_scale_to_zero : Redkey T → List (RedkeyConfig T) → Action K (Redkey T)
  unfolding ensure_rbac ensure_robin_deployment aggregate_status
  await_scale_to_zero cluster configs = do
    ensure_rbac K cluster
    ensure_robin_deployment K cluster
    aggregate_status K cluster configs

  -- The cases, by the config of the highest sequence.
  unfoldable pub scale_to_zero_cases :
      Redkey T → List (RedkeyConfig T) → Option (RedkeyConfig T) → Action K (Redkey T)
  unfolding update_status_scaled_to_zero request_scale_to_zero tear_down await_scale_to_zero
  scale_to_zero_cases cluster configs none = update_status_scaled_to_zero K cluster
  scale_to_zero_cases cluster configs (some latest) =
      if eqb_ℤ latest.spec.primaries (pos 0)
      then (if is_applied latest then tear_down cluster else await_scale_to_zero cluster configs)
      else request_scale_to_zero cluster latest

  -- Every case that succeeds asks for the same requeue; the object is the caller's, as it is left.
  unfoldable pub reconcile_scale_to_zero : Redkey T → Action K (Redkey T)
  unfolding list_configs scale_to_zero_cases
  reconcile_scale_to_zero cluster = do
    configs ← list_configs K cluster
    scale_to_zero_cases cluster configs (last? configs)
