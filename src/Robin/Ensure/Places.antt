-- ===== src/Robin/Ensure/Places.antt =====
-- What ensureRBAC and ensureRobinDeployment leave on a server that keeps what it is sent.
use redkey_operator.Common.{none, ◌≡◌, refl}
use redkey_operator.Common.GoMap.{lookup}
use redkey_operator.Api.Types.{Types}
use redkey_operator.Api.Redkey.{Redkey}
use redkey_operator.Kube.Action.{Env}
use redkey_operator.Kube.Laws.{EqualityLaws, OwnerLaw}
use redkey_operator.Kube.Runs.{Runs, Runs-bind, Runs-weaken}
use redkey_operator.Kube.Stored.{Stored, Storing}
use redkey_operator.Robin.Annotations.{deployment_revision_annotation}
use redkey_operator.Robin.Ensure.{robin_key, ensure_rbac, ensure_robin_deployment}
use redkey_operator.Robin.Ensure.Placed.{Owned, Placed, PlacedRbac}
use redkey_operator.Robin.Ensure.Leaves.{
  ensure_service_account-Runs, ensure_role-Runs, ensure_role_binding-Runs,
}
use redkey_operator.Robin.Ensure.Deploys.{ensure_robin_deployment-Runs}

-- The cluster and its configs are as they were.
abbrev pub SameRest : {T : Types} → Stored T → Stored T → Type 0
SameRest v v' = (v'.redkey ≡ v.redkey) × (v'.configs ≡ v.configs)

module _ {T : Types} {K : Env T} {view : K.World → Stored T} (cluster : Redkey T)
    (storing : Storing K.kube view (robin_key cluster)) (owner : OwnerLaw K.kube)
    (equal : EqualityLaws K.kube) (owned : Owned K cluster)
    (unmanaged : lookup deployment_revision_annotation owned.deployment.annotations ≡ none) where
  pub ensure_rbac-Leaves :
      (v : Stored T)
      → Runs view
          (ensure_rbac K cluster)
          v
          (λ u v' ws. PlacedRbac K cluster owned v' × SameRest v v')
  unfolding ensure_rbac
  ensure_rbac-Leaves v =
      Runs-bind _ (λ u v' ws. PlacedRbac K cluster owned v' × SameRest v v')
        (ensure_service_account-Runs cluster storing owner equal owned unmanaged v)
        (λ u v1 ws (a, right_a, e1).
          Runs-bind _ (λ u v' ws. PlacedRbac K cluster owned v' × SameRest v v')
            (ensure_role-Runs cluster storing owner equal owned unmanaged v1)
            (λ u v2 ws (b, right_b, e2).
              Runs-weaken _ (λ u v' ws. PlacedRbac K cluster owned v' × SameRest v v')
                (λ u v3 ws (c, right_c, e3).
                  rw (e3, e2, e1)
                    (
                      record {
                        service_account = (a, refl, right_a);
                        role = (b, refl, right_b);
                        role_binding = (c, refl, right_c);
                      },
                      (refl, refl),
                    ))
                (ensure_role_binding-Runs cluster storing owner equal owned unmanaged v2)))

  pub ensure_robin_deployment-Leaves :
      (v : Stored T)
      → PlacedRbac K cluster owned v
      → Runs view
          (ensure_robin_deployment K cluster)
          v
          (λ u v' ws. Placed K cluster owned v' × SameRest v v')
  ensure_robin_deployment-Leaves v rbac =
      Runs-weaken _ (λ u v' ws. Placed K cluster owned v' × SameRest v v')
        (λ u v' ws (d, right, e). rw e (
          record {
            rbac = record {
              service_account = rbac.service_account;
              role = rbac.role;
              role_binding = rbac.role_binding;
            };
            deployment = (d, refl, right);
          },
          (refl, refl),
        ))
        (ensure_robin_deployment-Runs cluster storing owner equal owned unmanaged v)
