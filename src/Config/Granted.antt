-- ===== src/Config/Granted.antt =====
-- The operations on configs on a server that grants every request.
use redkey_operator.Common.{All, ℕ, zero, suc, Option, none, some, List, [], ◌∷◌, take}
use redkey_operator.Api.Types.{Types}
use redkey_operator.Api.Redkey.{Redkey}
use redkey_operator.Api.Config.{RedkeyConfig}
use redkey_operator.Kube.Client.{Write}
use redkey_operator.Kube.Action.{Env}
use redkey_operator.Kube.Does.{Does, Does-then}
use redkey_operator.Kube.Willing.{
  Willing, Allows, after_owned, after_read, attempt_allowed, emit_any, pure_any, if_any,
}
use redkey_operator.Config.Sequence.{list_configs}
use redkey_operator.Config.Create.{after_create, create_new_config}
use redkey_operator.Config.Cleanup.{
  delete_superseded, delete_all, delete_older, cleanup_superseded_configs,
}

module _ {T : Types} {K : Env T} (willing : Willing K.kube) {Q : Write T → Type 0}
    (allows : Allows Q) where
  pub list_configs-granted : (cluster : Redkey T) → Does (list_configs K cluster) (λ x ws. All Q ws)
  unfolding list_configs
  list_configs-granted cluster = after_read _ _ (willing.configs _ _ _) λ items. pure_any _

  pub create_new_config-granted :
      (cluster : Redkey T) (highest : Option (RedkeyConfig T))
      → Does (create_new_config K cluster highest) (λ x ws. All Q ws)
  unfolding create_new_config after_create
  create_new_config-granted cluster highest =
      after_owned _ _ _ willing
        λ meta. attempt_allowed _ _ willing (allows.create_config _) (emit_any _)

  delete_superseded-granted : (c : RedkeyConfig T) → Does (delete_superseded K c) (λ x ws. All Q ws)
  unfolding delete_superseded
  delete_superseded-granted c = attempt_allowed _ _ willing (allows.delete_config _) (emit_any _)

  delete_all-granted :
      (configs : List (RedkeyConfig T)) → Does (delete_all K configs) (λ x ws. All Q ws)
  unfolding delete_all
  delete_all-granted [] = pure_any tt
  delete_all-granted (c ∷ configs) =
      Does-then (delete_superseded-granted c) λ u. delete_all-granted configs

  delete_older-granted :
      (configs : List (RedkeyConfig T)) (i : Option ℕ)
      → Does (delete_older K configs i) (λ x ws. All Q ws)
  unfolding delete_older
  delete_older-granted configs none = pure_any configs
  delete_older-granted configs (some zero) = pure_any configs
  delete_older-granted configs (some (suc i)) =
      Does-then (delete_all-granted (take (suc i) configs)) λ u. pure_any _

  pub cleanup_superseded_configs-granted :
      (configs : List (RedkeyConfig T))
      → Does (cleanup_superseded_configs K configs) (λ x ws. All Q ws)
  unfolding cleanup_superseded_configs
  cleanup_superseded_configs-granted configs =
      if_any _ _ _ (pure_any configs) (delete_older-granted configs _)
