-- ===== src/ScaleZero/Teardown.antt =====
-- redkey_scale_zero.go: what removes the operator's own objects, and the status that is written then.
pub mod Writes
pub mod Complete
pub mod Granted
use redkey_operator.Common.{String, Bool, none, some, List, [], ◌∷◌, if◌then◌else◌, ◌<>◌}
use redkey_operator.Common.Int.{pos}
use redkey_operator.Common.GoMap.{made}
use redkey_operator.Api.Types.{Types, Time}
use redkey_operator.Api.Meta.{Condition, condition, condition_true, condition_false}
use redkey_operator.Api.Config.{RedkeyConfig}
use redkey_operator.Api.Redkey.{Redkey, RedkeyStatus, phase_ready}
use redkey_operator.Kube.Client.{
  Kube, Kind, Result, Error, ok, err, wrapped, delete, service_account, role, role_binding,
  deployment, config,
}
use redkey_operator.Api.Meta.{NamespacedName}
use redkey_operator.Kube.Action.{
  Env, Action, ◌>>=◌, ◌>>◌, pure, fail, attempt, read, clock, send, send_status, not_found,
  wrap_error,
}
use redkey_operator.Robin.Merge.{robin_name, cluster_label}
use redkey_operator.Robin.Ensure.{robin_key}
use redkey_operator.Config.Cleanup.{config_key}

module _ {T : Types} (K : Env T) where
  -- `r.Delete`, where an object that is gone already is no error and any other one is wrapped.
  unfoldable pub delete_if_found : String → Kind → NamespacedName → Action K (Unit {0})
  delete_if_found text kind key = do
    deleted ← attempt (send (delete kind key))
    elim deleted [
      | ok _ ↦ pure tt
      | err e ↦ if not_found K e then pure tt else fail (wrapped text e)
    ]

  unfoldable pub delete_robin_deployment : Redkey T → Action K (Unit {0})
  unfolding delete_if_found robin_key robin_name
  delete_robin_deployment cluster =
      delete_if_found ("deleting Robin Deployment " <> robin_name cluster) deployment
        (robin_key cluster)

  delete_rbac_objects : NamespacedName → List Kind → Action K (Unit {0})
  unfolding delete_if_found
  delete_rbac_objects key [] = pure tt
  delete_rbac_objects key (kind ∷ kinds) = do
    delete_if_found ("deleting RBAC resource /" <> key.name) kind key
    delete_rbac_objects key kinds

  unfoldable pub delete_rbac : Redkey T → Action K (Unit {0})
  unfolding delete_rbac_objects robin_key
  delete_rbac cluster =
      delete_rbac_objects (robin_key cluster) (role_binding ∷ role ∷ service_account ∷ [])

  delete_configs : List (RedkeyConfig T) → Action K (Unit {0})
  unfolding delete_if_found
  delete_configs [] = pure tt
  delete_configs (c ∷ configs) = do
    delete_if_found ("deleting config " <> c.meta.name) config (config_key c)
    delete_configs configs

  unfoldable pub delete_all_configs : Redkey T → Action K (Unit {0})
  unfolding delete_configs
  delete_all_configs cluster = do
    items ←
        wrap_error "listing configs for deletion"
          (read (K.list_configs cluster.meta.namespace cluster_label cluster.meta.name))
    delete_configs items

module _ {T : Types} (K : Kube T) where
  unfoldable pub scaled_to_zero_conditions : Time → List (Condition T) → List (Condition T)
  scaled_to_zero_conditions t existing =
      K.set_status_condition t
        (K.set_status_condition t
          (K.set_status_condition t existing (condition T "Ready" condition_true "ScaledToZero" ""))
          (condition T "ConfigPending" condition_false "ScaledToZero" ""))
        (condition T "Error" condition_false "ScaledToZero" "")

  unfoldable pub scaled_to_zero_status : Time → Redkey T → RedkeyStatus T
  unfolding scaled_to_zero_conditions
  scaled_to_zero_status t cluster = record cluster.status {
    replicas = pos 0;
    phase = phase_ready;
    status = "";
    substatus = record { status = ""; upgrading_partition = pos 0 };
    nodes = made [];
    last_updated_at = some t;
    observed_generation = cluster.meta.generation;
    conditions = scaled_to_zero_conditions t cluster.status.conditions;
  }

module _ {T : Types} (K : Env T) where
  -- The client writes the server's reply to the caller's object.
  unfoldable pub update_status_scaled_to_zero : Redkey T → Action K (Redkey T)
  unfolding scaled_to_zero_status
  update_status_scaled_to_zero cluster = do
    t ← clock
    send_status (record cluster { status = scaled_to_zero_status K.kube t cluster })
