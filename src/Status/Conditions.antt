-- ===== src/Status/Conditions.antt =====
-- redkey_config.go: aggregateConditions, aggregateHealthConditions, computePhaseFromConditions and
-- the tests that they rest on.
pub mod Phase
use redkey_operator.Common.{
  String, Bool, true, false, not, ◌&&◌, ◌||◌, ◌==◌, Option, none, some, List, [], ◌∷◌,
  if◌then◌else◌,
}
use redkey_operator.Common.GoMap.{GoMap, nil, made}
use redkey_operator.Api.Types.{Types, Time}
use redkey_operator.Api.Meta.{
  Condition, condition, condition_true, condition_false, condition_unknown,
}
use redkey_operator.Api.Config.{
  RedkeyConfig, RedisNode, config_phase_applied, config_phase_superseded, cluster_status_ready,
  cluster_phase_error, condition_healthy, condition_membership_healthy, condition_slots_covered,
  condition_slots_balanced, condition_replicas_balanced, condition_cluster_check_passing,
}
use redkey_operator.Api.Redkey.{phase_ready, phase_configuring, phase_error}
use redkey_operator.Kube.Client.{Kube}

unfoldable pub is_terminal_config_phase : String → Bool
is_terminal_config_phase phase = phase == config_phase_applied || phase == config_phase_superseded

unfoldable pub condition_status : Bool → String
condition_status true = condition_true
condition_status false = condition_false

unfoldable pub empty_nodes_if_nil : GoMap (Option RedisNode) → GoMap (Option RedisNode)
empty_nodes_if_nil nil = made []
empty_nodes_if_nil (made es) = made es

abbrev pub health_condition_types : List String
health_condition_types =
    condition_healthy ∷ condition_membership_healthy ∷ condition_slots_covered
    ∷ condition_slots_balanced ∷ condition_replicas_balanced ∷ condition_cluster_check_passing ∷ []

module _ {T : Types} where
  -- The config is never nil where these two are called.
  unfoldable pub is_config_ready : RedkeyConfig T → Bool
  unfolding is_terminal_config_phase
  is_config_ready config =
      is_terminal_config_phase config.status.config_phase
      && not (config.status.status == cluster_phase_error)

  unfoldable pub has_config_error : RedkeyConfig T → Bool
  unfolding is_terminal_config_phase
  has_config_error config =
      is_terminal_config_phase config.status.config_phase
      && config.status.status == cluster_phase_error

  unfoldable pub is_settled : RedkeyConfig T → Bool
  unfolding is_terminal_config_phase
  is_settled config =
      is_terminal_config_phase config.status.config_phase
      && config.status.status == cluster_status_ready

  -- `cond != nil && cond.Status == metav1.ConditionTrue`
  unfoldable pub is_condition_true : Option (Condition T) → Bool
  is_condition_true none = false
  is_condition_true (some c) = c.status == condition_true

module _ {T : Types} (K : Kube T) where
  -- The condition of one type that the loop of `aggregateHealthConditions` sets.
  unfoldable pub health_condition : RedkeyConfig T → String → Condition T
  unfolding is_settled
  health_condition active kind =
      let unknown = condition T kind condition_unknown "Reconciling" "" in
      if is_settled active
      then (elim (K.find_status_condition active.status.conditions kind) [
        | some src ↦ condition T kind src.status src.reason src.message
        | none ↦ unknown
      ])
      else unknown

  unfoldable pub set_health_conditions :
      Time → RedkeyConfig T → List String → List (Condition T) → List (Condition T)
  unfolding health_condition
  set_health_conditions t active [] conditions = conditions
  set_health_conditions t active (kind ∷ kinds) conditions =
      set_health_conditions t active kinds
        (K.set_status_condition t conditions (health_condition active kind))

  unfoldable pub aggregate_health_conditions :
      Time → RedkeyConfig T → List (Condition T) → List (Condition T)
  unfolding set_health_conditions
  aggregate_health_conditions t active = set_health_conditions t active health_condition_types

  unfoldable pub aggregate_conditions :
      Time → List (Condition T) → RedkeyConfig T → List (Condition T)
  unfolding condition_status is_config_ready has_config_error is_terminal_config_phase
      aggregate_health_conditions
  aggregate_conditions t existing active =
      let set_flag = λ (kind : String) (b : Bool) (conditions : List (Condition T)).
        K.set_status_condition t conditions
          (condition T kind (condition_status b) "StatusAggregated" "") in
      aggregate_health_conditions t active (
        set_flag "Error" (has_config_error active) (
          set_flag "ConfigPending" (not (is_terminal_config_phase active.status.config_phase))
            (set_flag "Ready" (is_config_ready active) existing)))

  unfoldable pub compute_phase_from_conditions : List (Condition T) → String
  unfolding is_condition_true
  compute_phase_from_conditions conditions =
      if is_condition_true (K.find_status_condition conditions "Error")
      then phase_error
      else if is_condition_true (K.find_status_condition conditions "Ready")
      then phase_ready
      else phase_configuring
