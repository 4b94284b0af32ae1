-- ===== src/Tests/Statuses.antt =====
-- The theorems on the status and the metrics at concrete inputs.
use redkey_operator.Common.{none, some, List, [], ◌∷◌, ◌≡◌, arith}
use redkey_operator.Common.Int.{pos, ◌<ℤ◌}
use redkey_operator.Api.Config.{RedkeyConfig}
use redkey_operator.Kube.Client.{ok}
use redkey_operator.Kube.Collectors.{redkey_phase}
use redkey_operator.Kube.Laws.{reading}
use redkey_operator.Kube.Action.{Env, State}
use redkey_operator.Status.Conditions.{aggregate_conditions, compute_phase_from_conditions}
use redkey_operator.Status.Conditions.Phase.{reading-flags, compute_phase-aggregate_conditions}
use redkey_operator.Status.Aggregate.Topology.{
  StatusWrite, aggregated, scaled_to_zero, topology, after, topology-after, topology-never_cleared,
}
use redkey_operator.Config.Create.{config_spec}
use redkey_operator.Metrics.Record.{set_states, redkey_phase_values}
use redkey_operator.Metrics.Record.Gauges.{gauge-set_states}
use redkey_operator.Tests.Server.{types, server, env, server-ConditionLaws, gauges-GaugeLaws}
use redkey_operator.Tests.Objects.{cluster, status, config_in}

abbrev K : Env types
K = env (ok cluster) []

abbrev applied : RedkeyConfig types
applied = config_in (pos 2) "Applied"

compute_phase-aggregate_conditions_example :
    compute_phase_from_conditions
      (server (ok cluster) [])
      (aggregate_conditions (server (ok cluster) []) (pos 7) status.conditions applied)
    ≡ "Ready"
compute_phase-aggregate_conditions_example =
    compute_phase-aggregate_conditions (server (ok cluster) [])
      (server-ConditionLaws (ok cluster) []) (pos 7) status.conditions applied

reading-flags_example :
    (let cs = aggregate_conditions (server (ok cluster) []) (pos 7) status.conditions applied in
      (reading (server (ok cluster) []) cs "Ready" ≡ some ("True", "StatusAggregated", ""))
      × (reading (server (ok cluster) []) cs "ConfigPending"
          ≡ some ("False", "StatusAggregated", ""))
      × (reading (server (ok cluster) []) cs "Error" ≡ some ("False", "StatusAggregated", "")))
reading-flags_example =
    reading-flags (server (ok cluster) []) (server-ConditionLaws (ok cluster) []) (pos 7)
      status.conditions applied

abbrev history : List (StatusWrite types)
history = aggregated (pos 2) applied (pos 7) cluster ∷ scaled_to_zero (pos 8) cluster ∷ []

topology-after_example : topology (after (server (ok cluster) []) history status) ≡ (pos 3, pos 1)
unfolding config_spec
topology-after_example = topology-after (server (ok cluster) []) history status

topology-never_cleared_example :
    pos 0 <ℤ (after (server (ok cluster) []) history status).last_applied_primaries
topology-never_cleared_example =
    topology-never_cleared (server (ok cluster) []) history status (ground arith)

abbrev empty : K.Registry
empty = λ v ns name third. none

gauge-set_states_example :
    K.gauge redkey_phase "shop" "cache" "Ready"
      (set_states K redkey_phase "shop" "cache" "Ready" redkey_phase_values empty)
    ≡ some 1
gauge-set_states_example =
    gauge-set_states K gauges-GaugeLaws redkey_phase "shop" "cache" "Ready" redkey_phase_values
      "Ready" empty

abbrev scaling : State K
scaling = record {
  world = 5;
  registry = empty;
  active = λ k. some (record { operation = "ScalingUp"; started_at = pos 1 });
  last_phase = λ k. none;
  sent = [];
}
