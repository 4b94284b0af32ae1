-- ===== src/Status/Aggregate.antt =====
-- redkey_config.go: aggregateStatus.
pub mod Writes
pub mod Granted
pub mod Topology
pub mod Observed
use redkey_operator.Common.{
  String, Bool, true, false, not, ◌&&◌, ◌==◌, Option, none, some, List, [], ◌∷◌, if◌then◌else◌,
}
use redkey_operator.Common.Int.{ℤ, pos, ltb_ℤ}
use redkey_operator.Api.Types.{Types, Time}
use redkey_operator.Api.Meta.{NamespacedName}
use redkey_operator.Api.Config.{RedkeyConfig, config_phase_applied}
use redkey_operator.Api.Redkey.{Redkey, RedkeyStatus}
use redkey_operator.Kube.Client.{Kube}
use redkey_operator.Kube.Action.{
  Env, Action, ◌>>=◌, pure, read, clock, send_status, retry_on_conflict,
}
use redkey_operator.Config.Sequence.{select_active_config}
use redkey_operator.Status.Conditions.{
  empty_nodes_if_nil, aggregate_conditions, compute_phase_from_conditions,
}

module _ {T : Types} where
  -- Whether this status records the topology of the config as the last applied one.
  unfoldable pub records_topology : Redkey T → RedkeyConfig T → Bool
  records_topology latest active =
      not latest.spec.ephemeral
      && (active.status.config_phase == config_phase_applied && ltb_ℤ (pos 0) active.spec.primaries)

  module _ (K : Kube T) where
    -- The status that the closure of `aggregateStatus` writes into the object that it fetched. `t`
    -- is the time that it reads.
    unfoldable pub aggregated_status : ℤ → RedkeyConfig T → Time → Redkey T → RedkeyStatus T
    unfolding empty_nodes_if_nil aggregate_conditions compute_phase_from_conditions records_topology
    aggregated_status observed active t latest =
        let conditions = aggregate_conditions K t latest.status.conditions active in
        record {
          replicas = latest.spec.primaries;
          phase = compute_phase_from_conditions K conditions;
          status = active.status.status;
          substatus = active.status.substatus;
          nodes = empty_nodes_if_nil active.status.nodes;
          conditions = conditions;
          last_updated_at = some t;
          observed_generation = observed;
          last_applied_primaries =
              if records_topology latest active
              then active.spec.primaries
              else latest.status.last_applied_primaries;
          last_applied_replicas_per_primary =
              if records_topology latest active
              then active.spec.replicas_per_primary
              else latest.status.last_applied_replicas_per_primary;
        }

module _ {T : Types} (K : Env T) where
  -- One run of the closure: it returns the object as the server answered.
  unfoldable pub refresh_status : Redkey T → RedkeyConfig T → Action K (Redkey T)
  unfolding aggregated_status
  refresh_status cluster active = do
    latest ←
        read
          (K.get_redkey (record { namespace = cluster.meta.namespace; name = cluster.meta.name }))
    t ← clock
    send_status (record latest {
      status = aggregated_status K.kube cluster.meta.generation active t latest;
    })

  -- The caller's copy takes the status that was persisted.
  unfoldable pub aggregate_with : Redkey T → Option (RedkeyConfig T) → Action K (Redkey T)
  unfolding refresh_status
  aggregate_with cluster none = pure cluster
  aggregate_with cluster (some active) = do
    updated ← retry_on_conflict (refresh_status cluster active)
    pure (record cluster { status = updated.status })

  unfoldable pub aggregate_status : Redkey T → List (RedkeyConfig T) → Action K (Redkey T)
  unfolding select_active_config aggregate_with
  aggregate_status cluster configs = aggregate_with cluster (select_active_config configs)
