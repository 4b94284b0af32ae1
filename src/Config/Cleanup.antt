-- ===== src/Config/Cleanup.antt =====
-- redkey_config.go: cleanupSupersededConfigs.
pub mod Writes
pub mod Suffix
use redkey_operator.Common.{
  ℕ, zero, suc, String, Bool, true, false, Option, none, some, List, [], ◌∷◌, length, leb,
  get_elem?, take, drop, if◌then◌else◌,
}
use redkey_operator.Api.Types.{Types}
use redkey_operator.Api.Meta.{NamespacedName}
use redkey_operator.Api.Config.{RedkeyConfig}
use redkey_operator.Kube.Client.{Result, Error, ok, err, delete, config}
use redkey_operator.Kube.Collectors.{redkey_cleanup_deleted_configs}
use redkey_operator.Kube.Action.{
  Env, Action, ◌>>=◌, ◌>>◌, pure, fail, attempt, send, emit, not_found,
}
use redkey_operator.Config.Sequence.{is_applied}

module _ {T : Types} where
  abbrev pub config_key : RedkeyConfig T → NamespacedName
  config_key c = record { namespace = c.meta.namespace; name = c.meta.name }

  -- The loop from `i = len(configs) - 1` down, with `i + 1` rounds left: the index at which it
  -- breaks, and `none` where it leaves `lastApplied` at -1.
  unfoldable pub last_applied : ℕ → List (RedkeyConfig T) → Option ℕ
  last_applied zero configs = none
  last_applied (suc i) configs =
      let rest = last_applied i configs in
      elim (get_elem? configs i) [ none ↦ rest | some c ↦ if is_applied c then some i else rest ]

module _ {T : Types} (K : Env T) where
  -- One round of the loop that deletes: only a config that was deleted here is counted.
  unfoldable pub delete_superseded : RedkeyConfig T → Action K (Unit {0})
  delete_superseded c = do
    deleted ← attempt (send (delete config (config_key c)))
    elim deleted [
      | ok _ ↦ emit (K.inc redkey_cleanup_deleted_configs [])
      | err e ↦ if not_found K e then pure tt else fail e
    ]

  unfoldable pub delete_all : List (RedkeyConfig T) → Action K (Unit {0})
  unfolding delete_superseded
  delete_all [] = pure tt
  delete_all (c ∷ configs) = do delete_superseded c; delete_all configs

  unfoldable pub delete_older : List (RedkeyConfig T) → Option ℕ → Action K (List (RedkeyConfig T))
  unfolding delete_all
  delete_older configs none = pure configs
  delete_older configs (some zero) = pure configs
  delete_older configs (some (suc i)) =
      delete_all (take (suc i) configs) >> pure (drop (suc i) configs)

  -- With an error the source returns a slice too, which its caller ignores.
  unfoldable pub cleanup_superseded_configs :
      List (RedkeyConfig T) → Action K (List (RedkeyConfig T))
  unfolding delete_older last_applied
  cleanup_superseded_configs configs =
      if leb (length configs) 1
      then pure configs
      else delete_older configs (last_applied (length configs) configs)
