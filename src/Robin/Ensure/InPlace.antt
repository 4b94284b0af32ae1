-- ===== src/Robin/Ensure/InPlace.antt =====
-- ensureRBAC and ensureRobinDeployment where Robin's objects are as they should be.
use redkey_operator.Common.{Bool, false, not, ◌||◌, [], ◌≡◌, refl, ap, arith}
use redkey_operator.Api.Types.{Types}
use redkey_operator.Api.Meta.{ObjectMeta}
use redkey_operator.Api.Redkey.{Redkey}
use redkey_operator.Api.Workload.{ServiceAccount, Role, RoleBinding, Deployment}
use redkey_operator.Kube.Client.{Result, Error, ok}
use redkey_operator.Kube.Action.{Env, Action, lift, read, attempt, when, ◌>>=◌}
use redkey_operator.Kube.Does.{
  Does, Quiet, lifted, Does-bind, Does-lift, Does-attempt-read, Does-when,
}
use redkey_operator.Kube.Does.Quiet.{Does-Quiet}
use redkey_operator.Robin.Annotations.{robin_deployment_needs_update}
use redkey_operator.Robin.Deployment.{build_desired_robin_deployment}
use redkey_operator.Robin.Ensure.{
  robin_key, rbac_meta, desired_robin_rules, desired_subjects, desired_role_ref, role_refs_differ,
  metadata_differs, ensure_service_account, ensure_role, ensure_role_binding, ensure_rbac,
  ensure_robin_deployment,
}

-- Every read finds Robin's four objects, and none of them differs from what the cluster asks for.
pub record InPlace {T : Types} (K : Env T) (cluster : Redkey T) : Type 0 where
  pub rbac : ObjectMeta T
  pub rbac_owned : K.set_controller_reference cluster.meta (rbac_meta cluster) ≡ ok rbac
  pub service_account : ServiceAccount T
  pub service_account_found :
      (w : K.World) → (K.get_service_account (robin_key cluster) w).0 ≡ ok service_account
  pub service_account_same : metadata_differs K service_account.meta rbac ≡ false
  pub role : Role T
  pub role_found : (w : K.World) → (K.get_role (robin_key cluster) w).0 ≡ ok role
  pub role_same :
      (not (K.deep_equal role.rules desired_robin_rules) || metadata_differs K role.meta rbac)
      ≡ false
  pub role_binding : RoleBinding T
  pub role_binding_found :
      (w : K.World) → (K.get_role_binding (robin_key cluster) w).0 ≡ ok role_binding
  pub role_ref_same : role_refs_differ role_binding.role_ref (desired_role_ref cluster) ≡ false
  pub role_binding_same :
      (not (K.deep_equal role_binding.subjects (desired_subjects cluster))
        || metadata_differs K role_binding.meta rbac)
      ≡ false
  pub owned : ObjectMeta T
  pub deployment_owned :
      K.set_controller_reference cluster.meta (build_desired_robin_deployment cluster).meta
      ≡ ok owned
  pub deployment : Deployment T
  pub deployment_found : (w : K.World) → (K.get_deployment (robin_key cluster) w).0 ≡ ok deployment
  pub deployment_same :
      robin_deployment_needs_update K.kube deployment
        (record (build_desired_robin_deployment cluster) { meta = owned })
      ≡ false

module _ {T : Types} {K : Env T} where
  -- An action that starts with an owner reference and a read that finds an object.
  found-Quiet :
      {A B : Type 0} (owner m m' : ObjectMeta T) (get : K.World → Result K.ApiError A × K.World)
      (a : A) (g : ObjectMeta T → Result (Error K.ApiError) A → Action K B)
      → K.set_controller_reference owner m ≡ ok m'
      → ((w : K.World) → (get w).0 ≡ ok a)
      → Does (g m' (ok a)) Quiet
      → Does
          (lift (K.set_controller_reference owner m) >>= λ meta.
            (attempt (read get) >>= λ r. g meta r))
          Quiet
  found-Quiet owner m m' get a g owned there rest =
      Does-bind (λ x ws. (x ≡ m') × (ws ≡ [])) (λ x. Quiet) Quiet (Does-lift _ m' owned)
        (λ x ws h.
          Does-bind (λ r ws. (r ≡ ok a) × (ws ≡ [])) (λ r. Quiet) Quiet
            (Does-attempt-read get (λ r. r ≡ ok a) (λ w. ap lifted (there w)))
            (λ r ws e. rw (h.0, e.0) rest) (λ r b ws vs e v. rw (e.1, v) refl))
        (λ x b ws vs h v. rw (h.1, v) refl)

  never : (b : Bool) (m : Action K (Unit {0})) → b ≡ false → Does (when b m) Quiet
  never b m e = Does-when b m Quiet (λ t. absurd (ground (arith, e, t))) (λ _. refl)

  module _ {cluster : Redkey T} (p : InPlace K cluster) where
    ensure_service_account-Quiet : Does (ensure_service_account K cluster) Quiet
    unfolding ensure_service_account
    ensure_service_account-Quiet =
        found-Quiet _ _ p.rbac _ p.service_account _ p.rbac_owned p.service_account_found
          (never _ _ p.service_account_same)

    ensure_role-Quiet : Does (ensure_role K cluster) Quiet
    unfolding ensure_role
    ensure_role-Quiet =
        found-Quiet _ _ p.rbac _ p.role _ p.rbac_owned p.role_found (never _ _ p.role_same)

    ensure_role_binding-Quiet : Does (ensure_role_binding K cluster) Quiet
    unfolding ensure_role_binding
    ensure_role_binding-Quiet =
        found-Quiet _ _ p.rbac _ p.role_binding _ p.rbac_owned p.role_binding_found
          (rw (p.role_ref_same) (never _ _ p.role_binding_same))

    pub ensure_rbac-Quiet : Does (ensure_rbac K cluster) Quiet
    unfolding ensure_rbac
    ensure_rbac-Quiet =
        Does-Quiet ensure_service_account-Quiet
          λ u. Does-Quiet ensure_role-Quiet λ u. ensure_role_binding-Quiet

    pub ensure_robin_deployment-Quiet : Does (ensure_robin_deployment K cluster) Quiet
    unfolding ensure_robin_deployment
    ensure_robin_deployment-Quiet =
        found-Quiet _ _ p.owned _ p.deployment _ p.deployment_owned p.deployment_found
          (never _ _ p.deployment_same)
