-- ===== src/Robin/Env.antt =====
-- redkey_robin.go: robinDefaultEnvVars and mergeEnvVars.
pub mod Precedence
use redkey_operator.Common.{ℕ, suc, String, Option, none, some, List, [], ◌∷◌, ◌++◌, length, set}
use redkey_operator.Common.GoMap.{find, insert}
use redkey_operator.Api.Types.{Types}
use redkey_operator.Api.Meta.{EnvVar}
use redkey_operator.Api.Redkey.{Redkey}

module _ {T : Types} where
  unfoldable pub robin_default_env_vars : Redkey T → List (EnvVar T)
  robin_default_env_vars cluster =
      record { name = "CLUSTER_NAME"; value = cluster.meta.name; value_from = none }
      ∷ record { name = "NAMESPACE"; value = cluster.meta.namespace; value_from = none }
      ∷ []

  -- `indexByName` after the first loop: the position of each name, the last one where it repeats.
  index_by_name : ℕ → List (EnvVar T) → List (String × ℕ) → List (String × ℕ)
  unfolding insert
  index_by_name index [] by_name = by_name
  index_by_name index (env_var ∷ rest) by_name =
      index_by_name (suc index) rest (insert env_var.name index by_name)

  -- The second loop.
  merge_loop : List (EnvVar T) → List (EnvVar T) → List (String × ℕ) → List (EnvVar T)
  unfolding insert
  merge_loop [] merged by_name = merged
  merge_loop (env_var ∷ rest) merged by_name = elim (find env_var.name by_name) [
    | some index ↦ merge_loop rest (set merged index env_var) by_name
    | none ↦ merge_loop rest (merged ++ env_var ∷ []) (insert env_var.name (length merged) by_name)
  ]

  unfoldable pub merge_env_vars : List (EnvVar T) → List (EnvVar T) → List (EnvVar T)
  unfolding index_by_name merge_loop
  merge_env_vars base overrides = merge_loop overrides base (index_by_name 0 base [])
