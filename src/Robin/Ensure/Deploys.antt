-- ===== src/Robin/Ensure/Deploys.antt =====
-- ensureRobinDeployment on a server that keeps what it is sent: the Deployment is there and right
-- afterwards.
use redkey_operator.Common.{none, some, ◌≡◌, ap, ◌∙◌}
use redkey_operator.Common.GoMap.{lookup}
use redkey_operator.Api.Types.{Types}
use redkey_operator.Api.Redkey.{Redkey}
use redkey_operator.Api.Workload.{Deployment}
use redkey_operator.Kube.Client.{Write}
use redkey_operator.Kube.Action.{Env, send, emit, ◌>>◌}
use redkey_operator.Kube.Laws.{EqualityLaws, OwnerLaw}
use redkey_operator.Kube.Runs.{Runs, Runs-bind, Runs-weaken, Runs-when, Runs-emit}
use redkey_operator.Kube.Stored.{Stored, Storing}
use redkey_operator.Robin.Annotations.{deployment_revision_annotation, patched_deployment}
use redkey_operator.Robin.Deployment.{build_desired_robin_deployment}
use redkey_operator.Robin.Ensure.{robin_key, ensure_robin_deployment}
use redkey_operator.Robin.Ensure.Placed.{
  Owned, desired_deployment, RightDeployment, RightDeployment-created, RightDeployment-patched,
}
use redkey_operator.Robin.Ensure.Puts.{Puts, ensure-Runs, send-Puts}

module _ {T : Types} {K : Env T} {view : K.World → Stored T} (cluster : Redkey T)
    (storing : Storing K.kube view (robin_key cluster)) (owner : OwnerLaw K.kube)
    (equal : EqualityLaws K.kube) (owned : Owned K cluster)
    (unmanaged : lookup deployment_revision_annotation owned.deployment.annotations ≡ none) where
  abbrev pub put_deployment : Stored T → Deployment T → Stored T
  put_deployment v kept = record v { deployment = some kept }

  kept_deployment :
      (owned.deployment.namespace ≡ (robin_key cluster).namespace)
      × (owned.deployment.name ≡ (robin_key cluster).name)
  unfolding build_desired_robin_deployment robin_key
  kept_deployment = let k = owner.keeps _ _ _ owned.deployment_owned in (k.1, k.0)

  then_counted :
      (v : Stored T) (w : Write T) (g : K.Registry → K.Registry)
      → Runs view (send {K = K} w) v (Puts (RightDeployment K cluster owned) (put_deployment v))
      → Runs view
          (send {K = K} w >> emit g)
          v
          (Puts (RightDeployment K cluster owned) (put_deployment v))
  then_counted v w g r =
      Runs-bind _ (Puts (RightDeployment K cluster owned) (put_deployment v)) r
        (λ u v' ws h. Runs-weaken _ _ (λ u v'' vs e. rw (e.0) h) (Runs-emit g))

  pub ensure_robin_deployment-Runs :
      (v : Stored T)
      → Runs view
          (ensure_robin_deployment K cluster)
          v
          (Puts (RightDeployment K cluster owned) (put_deployment v))
  unfolding ensure_robin_deployment
  ensure_robin_deployment-Runs v =
      ensure-Runs cluster.meta (build_desired_robin_deployment cluster).meta owned.deployment _
        (λ v. v.deployment) v _ _ _ owned.deployment_owned storing.deployment_read
        (λ gone. then_counted v _ _ (
          send-Puts _ v _ put_deployment (λ w e.
            let (took, (kept, k, eq)) =
              storing.deployment_created (desired_deployment K cluster owned) w kept_deployment.0
                kept_deployment.1 (ap (λ v. v.deployment) e ∙ gone) in
            (took, (kept, RightDeployment-created K equal cluster owned unmanaged kept k, eq)))))
        (λ a there.
          Runs-when _ _ (Puts (RightDeployment K cluster owned) (put_deployment v))
            (λ differs. then_counted v _ _ (
              send-Puts _ v _ put_deployment (λ w e.
                let (took, (kept, k, eq)) =
                  storing.deployment_patched a
                    (patched_deployment a (desired_deployment K cluster owned)) w
                    (ap (λ v. v.deployment) e ∙ there) in
                (
                  took,
                  (kept, RightDeployment-patched K equal cluster owned unmanaged kept a k, eq),
                ))))
            (λ e. (a, e, ap (λ x. record v { deployment = x }) there)))
