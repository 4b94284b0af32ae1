-- ===== src/Config/Sequence.antt =====
-- redkey_config.go: listConfigs, needsNewConfig, selectActiveConfig.
pub mod Order
pub mod Generation
pub mod Active
pub mod Listed
use redkey_operator.Common.{
  String, Bool, true, false, ◌==◌, Option, none, some, List, [], ◌∷◌, if◌then◌else◌,
}
use redkey_operator.Common.Int.{ℤ, ltb_ℤ, leb_ℤ}
use redkey_operator.Common.GoMap.{lookup}
use redkey_operator.Common.Decimal.{parse_int}
use redkey_operator.Common.Sort.{sort_slice}
use redkey_operator.Api.Types.{Types}
use redkey_operator.Api.Config.{RedkeyConfig, config_phase_in_progress, config_phase_applied}
use redkey_operator.Api.Redkey.{Redkey}
use redkey_operator.Kube.Action.{Env, Action, ◌>>=◌, pure, read}
use redkey_operator.Robin.Merge.{cluster_label}

abbrev pub generation_annotation : String
generation_annotation = "redkey.inditex.dev/cluster-generation"

module _ {T : Types} where
  -- `items[i].Spec.Sequence < items[j].Spec.Sequence`
  abbrev pub before : RedkeyConfig T → RedkeyConfig T → Bool
  before a b = ltb_ℤ a.spec.sequence b.spec.sequence

  -- The generation that the annotation of a config names, if it is there and can be read.
  unfoldable pub config_generation : RedkeyConfig T → Option ℤ
  unfolding parse_int
  config_generation config = elim (lookup generation_annotation config.meta.annotations) [
    | none ↦ none
    | some text ↦ if text == "" then none else parse_int text
  ]

  unfoldable pub needs_new_config : Redkey T → Option (RedkeyConfig T) → Bool
  unfolding config_generation
  needs_new_config cluster latest =
      let fallback = ltb_ℤ cluster.status.observed_generation cluster.meta.generation in
      elim latest [
        | none ↦ fallback
        | some config ↦ elim (config_generation config) [
          | none ↦ fallback
          | some generation ↦ if leb_ℤ cluster.meta.generation generation then false else fallback
        ]
      ]

  abbrev pub is_in_progress : RedkeyConfig T → Bool
  is_in_progress config = config.status.config_phase == config_phase_in_progress

  abbrev pub is_applied : RedkeyConfig T → Bool
  is_applied config = config.status.config_phase == config_phase_applied

  -- The loop of `selectActiveConfig`.
  unfoldable pub first_in_progress : List (RedkeyConfig T) → Option (RedkeyConfig T)
  first_in_progress [] = none
  first_in_progress (config ∷ configs) =
      if is_in_progress config then some config else first_in_progress configs

  -- `none` stands for the panic of `&configs[0]` on no configs: the callers never pass none.
  unfoldable pub select_active_config : List (RedkeyConfig T) → Option (RedkeyConfig T)
  unfolding first_in_progress
  select_active_config [] = none
  select_active_config (config ∷ []) = some config
  select_active_config (config ∷ next ∷ configs) =
      elim (first_in_progress (config ∷ next ∷ configs)) [
        | some active ↦ some active
        | none ↦ some config
      ]

module _ {T : Types} (K : Env T) where
  unfoldable pub list_configs : Redkey T → Action K (List (RedkeyConfig T))
  unfolding sort_slice
  list_configs cluster = do
    items ← read (K.list_configs cluster.meta.namespace cluster_label cluster.meta.name)
    pure (sort_slice before items)
