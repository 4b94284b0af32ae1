-- ===== src/ScaleZero/Teardown/Granted.antt =====
-- The teardown on a server that grants every request.
use redkey_operator.Common.{String, List, [], ◌∷◌}
use redkey_operator.Api.Types.{Types}
use redkey_operator.Api.Meta.{NamespacedName}
use redkey_operator.Api.Redkey.{Redkey}
use redkey_operator.Api.Config.{RedkeyConfig}
use redkey_operator.Kube.Client.{role_binding, role, service_account, Kind}
use redkey_operator.Kube.Action.{Env}
use redkey_operator.Kube.Does.{
  Does, Anything, Does-then, Does-clock, Does-read, Does-send_status, Does-wrap_error,
}
use redkey_operator.Kube.Willing.{Willing, Does-Anything, attempt_granted, pure_any}
use redkey_operator.Robin.Ensure.{robin_key}
use redkey_operator.ScaleZero.Teardown.{
  delete_if_found, delete_robin_deployment, delete_rbac_objects, delete_rbac, delete_configs,
  delete_all_configs, update_status_scaled_to_zero,
}

module _ {T : Types} {K : Env T} (willing : Willing K.kube) where
  delete_if_found-granted :
      (text : String) (kind : Kind) (key : NamespacedName)
      → Does (delete_if_found K text kind key) Anything
  unfolding delete_if_found
  delete_if_found-granted text kind key = attempt_granted _ _ willing (pure_any tt)

  delete_rbac_objects-granted :
      (key : NamespacedName) (kinds : List Kind) → Does (delete_rbac_objects K key kinds) Anything
  unfolding delete_rbac_objects
  delete_rbac_objects-granted key [] = pure_any tt
  delete_rbac_objects-granted key (kind ∷ kinds) =
      Does-then (delete_if_found-granted _ kind key) λ u. delete_rbac_objects-granted key kinds

  delete_configs-granted :
      (configs : List (RedkeyConfig T)) → Does (delete_configs K configs) Anything
  unfolding delete_configs
  delete_configs-granted [] = pure_any tt
  delete_configs-granted (c ∷ configs) =
      Does-then (delete_if_found-granted _ _ _) λ u. delete_configs-granted configs

  pub delete_all_configs-granted :
      (cluster : Redkey T) → Does (delete_all_configs K cluster) Anything
  unfolding delete_all_configs
  delete_all_configs-granted cluster =
      Does-then
        (Does-wrap_error _ _ Anything (
          Does-Anything _ (
            Does-read _ (λ a. Unit)
              (λ w. ((willing.configs _ _ _ w).0, (willing.configs _ _ _ w).1, tt)))))
        λ items. delete_configs-granted items

  pub update_status_scaled_to_zero-granted :
      (cluster : Redkey T) → Does (update_status_scaled_to_zero K cluster) Anything
  unfolding update_status_scaled_to_zero
  update_status_scaled_to_zero-granted cluster =
      Does-then (Does-Anything _ Does-clock)
        λ t. Does-Anything _ (Does-send_status _ (willing.accepts_status _))

  pub delete_robin_deployment-granted :
      (cluster : Redkey T) → Does (delete_robin_deployment K cluster) Anything
  unfolding delete_robin_deployment
  delete_robin_deployment-granted cluster = delete_if_found-granted _ _ _

  pub delete_rbac-granted : (cluster : Redkey T) → Does (delete_rbac K cluster) Anything
  unfolding delete_rbac
  delete_rbac-granted cluster =
      delete_rbac_objects-granted (robin_key cluster) (role_binding ∷ role ∷ service_account ∷ [])
