-- ===== src/Status/Aggregate/Observed.antt =====
-- What every status that aggregateStatus sends says, however often the update is retried.
use redkey_operator.Common.{some, List, ◌≡◌, refl, All}
use redkey_operator.Api.Types.{Types, Time}
use redkey_operator.Api.Config.{RedkeyConfig}
use redkey_operator.Api.Redkey.{Redkey}
use redkey_operator.Kube.Client.{Write, create, patch, delete, update_status}
use redkey_operator.Kube.Laws.{RetryLaw, ConditionLaws}
use redkey_operator.Kube.Action.{Env, State}
use redkey_operator.Kube.Keeps.{Keeps, Any, Keeps-then, Keeps-pure, Keeps-retry}
use redkey_operator.Kube.Sent.{Sent, sent_rules}
use redkey_operator.Config.Sequence.{select_active_config}
use redkey_operator.Status.Conditions.Phase.{phase_of, compute_phase-aggregate_conditions}
use redkey_operator.Status.Aggregate.{
  aggregated_status, refresh_status, aggregate_with, aggregate_status,
}

-- A status names the generation of the reconcile's snapshot and what the active config reports.
abbrev pub Reports : {T : Types} → Redkey T → RedkeyConfig T → Write T → Type 0
Reports cluster active (update_status r) =
    (r.status.observed_generation ≡ cluster.meta.generation)
    × (r.status.status ≡ active.status.status)
    × (r.status.phase ≡ phase_of active)
Reports cluster active (create o) = Unit
Reports cluster active (patch old new) = Unit
Reports cluster active (delete kind key) = Unit

module _ {T : Types} (K : Env T) (law : RetryLaw K.kube) (laws : ConditionLaws K.kube) where
  aggregated_status-Reports :
      (cluster latest : Redkey T) (active : RedkeyConfig T) (t : Time)
      → Reports cluster active (
          update_status (record latest {
            status = aggregated_status K.kube cluster.meta.generation active t latest;
          }))
  unfolding aggregated_status
  aggregated_status-Reports cluster latest active t =
      (refl, refl, compute_phase-aggregate_conditions K.kube laws t latest.status.conditions active)

  refresh_status-Reports :
      (cluster : Redkey T) (active : RedkeyConfig T)
      → Keeps (Sent (Reports cluster active)) (refresh_status K cluster active) Any
  unfolding refresh_status
  refresh_status-Reports cluster active =
      search (sent_rules, aggregated_status-Reports cluster) depth 8

  -- Where a conflict only makes RetryOnConflict run its function again and a condition that was
  -- set is found again: with an active config, every status that is sent, whatever the client
  -- fetches and however often it retries, names the generation that the reconcile began with and
  -- the active config's status. Its phase is Error when the active config is Applied or Superseded
  -- with the status Error, Ready when it is Applied or Superseded with any other status, and
  -- Configuring in any other phase of the config.
  pub aggregate_status-Reports :
      (cluster : Redkey T) (configs : List (RedkeyConfig T)) (active : RedkeyConfig T) (s : State K)
      → select_active_config configs ≡ some active
      → All (Reports cluster active) s.sent
      → All (Reports cluster active) ((aggregate_status K cluster configs).run s).1.sent
  unfolding aggregate_status aggregate_with
  aggregate_status-Reports cluster configs active s chosen h =
      rw (chosen, aggregate_with) ((kept.at s (record { all = h })).0.all)
    where
      kept : Keeps (Sent (Reports cluster active)) (aggregate_with K cluster (some active)) Any
      kept =
          Keeps-then _ _ (Keeps-retry law _ (refresh_status-Reports cluster active))
            λ _. Keeps-pure _ tt
