-- ===== src/Robin/Ensure/Granted.antt =====
-- ensureRBAC and ensureRobinDeployment on a server that grants every request.
use redkey_operator.Api.Types.{Types}
use redkey_operator.Api.Redkey.{Redkey}
use redkey_operator.Kube.Client.{Result, Error, ok, err}
use redkey_operator.Kube.Action.{Env, Action}
use redkey_operator.Kube.Does.{Does, Anything, Does-then}
use redkey_operator.Kube.Willing.{
  Willing, Settled, after_owned, after_found, send_granted, when_any, if_any, emit_any,
}
use redkey_operator.Robin.Ensure.{
  robin_key, create_or, ensure_service_account, ensure_role, ensure_role_binding, ensure_rbac,
  ensure_robin_deployment,
}

module _ {T : Types} {K : Env T} (willing : Willing K.kube) (cluster : Redkey T) where
  create_or_granted :
      {A : Type 0} (r : Result (Error K.ApiError) A) (missing : Action K (Unit {0}))
      (found : A → Action K (Unit {0}))
      → Settled K r
      → Does missing Anything
      → ((a : A) → Does (found a) Anything)
      → Does (create_or K r missing found) Anything
  create_or_granted (ok a) missing found h m f = f a
  create_or_granted (err e) missing found h m f = rw (h) m

  ensure_service_account-granted : Does (ensure_service_account K cluster) Anything
  unfolding ensure_service_account
  ensure_service_account-granted = after_owned _ _ _ willing λ meta.
      after_found _ _ (willing.service_account (robin_key cluster)) λ r settled.
        create_or_granted r _ _ settled (send_granted willing _)
          (λ existing. when_any _ _ (send_granted willing _))

  ensure_role-granted : Does (ensure_role K cluster) Anything
  unfolding ensure_role
  ensure_role-granted = after_owned _ _ _ willing λ meta.
      after_found _ _ (willing.role (robin_key cluster)) λ r settled.
        create_or_granted r _ _ settled (send_granted willing _)
          (λ existing. when_any _ _ (send_granted willing _))

  ensure_role_binding-granted : Does (ensure_role_binding K cluster) Anything
  unfolding ensure_role_binding
  ensure_role_binding-granted = after_owned _ _ _ willing λ meta.
      after_found _ _ (willing.role_binding (robin_key cluster)) λ r settled.
        create_or_granted r _ _ settled (send_granted willing _) (λ existing.
          if_any _ _ _ (Does-then (send_granted willing _) (λ u. send_granted willing _))
            (when_any _ _ (send_granted willing _)))

  pub ensure_rbac-granted : Does (ensure_rbac K cluster) Anything
  unfolding ensure_rbac
  ensure_rbac-granted =
      Does-then ensure_service_account-granted
        λ u. Does-then ensure_role-granted λ u. ensure_role_binding-granted

  pub ensure_robin_deployment-granted : Does (ensure_robin_deployment K cluster) Anything
  unfolding ensure_robin_deployment
  ensure_robin_deployment-granted = after_owned _ _ _ willing λ meta.
      after_found _ _ (willing.deployment (robin_key cluster)) λ r settled.
        create_or_granted r _ _ settled (Does-then (send_granted willing _) (λ u. emit_any _))
          (λ existing. when_any _ _ (Does-then (send_granted willing _) (λ u. emit_any _)))
