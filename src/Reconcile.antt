-- ===== src/Reconcile.antt =====
-- internal/controller/redkey_controller.go: the reconcile loop's body.
pub mod Safety
pub mod Outcomes
pub mod Granted
pub mod Fetched
pub mod ScaleDown
pub mod Setup
pub mod Steady
pub mod Provides
pub mod Request
pub mod Settles
pub mod Converges
pub mod Interplay
use redkey_operator.Common.{
  String, Bool, true, false, ◌||◌, Option, none, some, List, [], ◌∷◌, if◌then◌else◌, last?, length,
  eqb,
}
use redkey_operator.Common.Int.{ℤ, pos, eqb_ℤ, ltb_ℤ}
use redkey_operator.Api.Types.{Types, Time}
use redkey_operator.Api.Meta.{NamespacedName}
use redkey_operator.Api.Config.{RedkeyConfig}
use redkey_operator.Api.Redkey.{Redkey}
use redkey_operator.Kube.Client.{Result, Error, ok, err}
use redkey_operator.Kube.Collectors.{redkey_reconcile_stage_errors}
use redkey_operator.Kube.Action.{
  Env, Action, ◌>>=◌, ◌>>◌, pure, fail, attempt, read, emit, not_found,
}
use redkey_operator.Robin.Ensure.{ensure_rbac, ensure_robin_deployment}
use redkey_operator.Config.Sequence.{list_configs, needs_new_config, select_active_config}
use redkey_operator.Config.Create.{create_new_config}
use redkey_operator.Config.Cleanup.{cleanup_superseded_configs}
use redkey_operator.Status.Aggregate.{aggregate_status}
use redkey_operator.Metrics.Record.{record_redkey_metrics, delete_redkey_metrics}
use redkey_operator.ScaleZero.Cases.{reconcile_scale_to_zero}

module _ {T : Types} (K : Env T) where
  -- A stage of the loop: a failure is counted under the stage's name and returned.
  unfoldable pub stage : {A : Type 0} → String → Action K A → Action K A
  stage name m = do
    r ← attempt m
    elim r [
      | ok a ↦ pure a
      | err e ↦ emit (K.inc redkey_reconcile_stage_errors (name ∷ [])) >> fail e
    ]

  -- The configs, after a new one was created where one is needed.
  unfoldable pub ensure_config : Redkey T → List (RedkeyConfig T) → Action K (List (RedkeyConfig T))
  unfolding stage needs_new_config create_new_config list_configs
  ensure_config cluster configs =
      let highest = last? configs in
      let create = (do
        stage "create_new_config" (create_new_config K cluster highest)
        stage "list_configs" (list_configs K cluster)) in
      if eqb (length configs) 0 || needs_new_config cluster highest then create else pure configs

  -- With configs, the superseded ones are deleted and the status is aggregated.
  unfoldable pub settle_configs :
      Redkey T → List (RedkeyConfig T) → Action K (Redkey T × List (RedkeyConfig T))
  unfolding stage cleanup_superseded_configs aggregate_status
  settle_configs cluster [] = pure (cluster, [])
  settle_configs cluster (c ∷ configs) = do
    kept ← stage "cleanup_superseded_configs" (cleanup_superseded_configs K (c ∷ configs))
    updated ← stage "aggregate_status" (aggregate_status K cluster kept)
    pure (updated, kept)

  -- The loop for a cluster with primaries.
  unfoldable pub reconcile_running : Redkey T → Action K (Unit {0})
  unfolding stage ensure_rbac ensure_robin_deployment list_configs ensure_config settle_configs
      select_active_config record_redkey_metrics
  reconcile_running cluster = do
    stage "ensure_rbac" (ensure_rbac K cluster)
    stage "ensure_robin_deployment" (ensure_robin_deployment K cluster)
    listed ← stage "list_configs" (list_configs K cluster)
    configs ← ensure_config cluster listed
    (updated, kept) ← settle_configs cluster configs
    record_redkey_metrics K updated (select_active_config kept)

  -- The loop for a cluster with none.
  unfoldable pub reconcile_zero : Redkey T → Action K (Unit {0})
  unfolding stage reconcile_scale_to_zero record_redkey_metrics
  reconcile_zero cluster = do
    updated ← stage "scale_to_zero" (reconcile_scale_to_zero K cluster)
    record_redkey_metrics K updated none

  -- `Reconcile`: the time after which it asks to be called again, `none` for an empty result.
  unfoldable pub reconcile : Time → NamespacedName → Action K (Option Time)
  unfolding delete_redkey_metrics reconcile_zero reconcile_running
  reconcile resync_interval key = do
    got ← attempt (read (K.get_redkey key))
    elim got [
      | err e ↦
          if not_found K e
          then (do delete_redkey_metrics K key; pure none)
          else (do emit (K.inc redkey_reconcile_stage_errors ("get_cluster" ∷ [])); fail e)
      | ok cluster ↦ do
        if eqb_ℤ cluster.spec.primaries (pos 0)
            then reconcile_zero cluster
            else reconcile_running cluster
        pure (some resync_interval)
    ]

-- `controllerOptions`: the field that the operator sets, 0 where it leaves the default.
unfoldable pub controller_options : ℤ → ℤ
controller_options max_concurrent_reconciles =
    if ltb_ℤ (pos 0) max_concurrent_reconciles then max_concurrent_reconciles else pos 0
