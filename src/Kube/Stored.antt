-- ===== src/Kube/Stored.antt =====
-- A server that keeps what it is sent, as it is documented: what there is of one cluster's objects, and
-- how reads and writes go with it while nobody else is at work.
pub mod Cluster
use redkey_operator.Common.{
  String, Bool, true, false, Option, none, some, List, [], ◌∷◌, ◌++◌, ◌≡◌, ◌==◌, All,
}
use mathlib.Core.List.{Perm}
use redkey_operator.Common.GoMap.{lookup}
use redkey_operator.Common.Int.{ℤ}
use redkey_operator.Api.Types.{Types, Time}
use redkey_operator.Api.Meta.{NamespacedName, ObjectMeta}
use redkey_operator.Api.Redkey.{Redkey}
use redkey_operator.Api.Config.{RedkeyConfig}
use redkey_operator.Api.Workload.{ServiceAccount, Role, RoleBinding, Deployment}
use redkey_operator.Kube.Client.{
  Kube, Result, ok, err, Write, create, patch, delete, update_status, role_binding, config,
  of_service_account, of_role, of_role_binding, of_deployment, of_config,
}
use redkey_operator.Robin.Annotations.{deployment_revision_annotation}

-- What there is of a cluster's objects.
pub record Stored (T : Types) : Type 0 where
  pub redkey : Option (Redkey T)
  pub service_account : Option (ServiceAccount T)
  pub role : Option (Role T)
  pub role_binding : Option (RoleBinding T)
  pub deployment : Option (Deployment T)
  pub configs : List (RedkeyConfig T)

-- The answer to a `Get`.
abbrev pub Answers : {T : Types} (K : Kube T) {A : Type 0} → Option A → Result K.ApiError A → Type 0
Answers K (some a) r = r ≡ ok a
Answers K none r = (e : K.ApiError) × (r ≡ err e) × (K.is_not_found e ≡ true)

-- Labels and annotations are kept; the server may fill in the rest.
abbrev pub SameMeta : {T : Types} → ObjectMeta T → ObjectMeta T → Type 0
SameMeta kept sent = (kept.labels ≡ sent.labels) × (kept.annotations ≡ sent.annotations)

-- A Deployment is kept, but for the annotation that Kubernetes writes, and for defaults that are
-- filled in where the pod spec says nothing.
pub record KeptDeployment {T : Types} (K : Kube T) (kept sent : Deployment T) : Type 0 where
  pub labels : kept.meta.labels ≡ sent.meta.labels
  pub annotations :
      (k : String)
      → (k == deployment_revision_annotation) ≡ false
      → lookup k kept.meta.annotations ≡ lookup k sent.meta.annotations
  pub replicas : kept.spec.replicas ≡ sent.spec.replicas
  pub template_labels : kept.spec.template.labels ≡ sent.spec.template.labels
  pub template_annotations : kept.spec.template.annotations ≡ sent.spec.template.annotations
  pub pod_spec : K.deep_derivative sent.spec.template.spec kept.spec.template.spec ≡ true

-- `view` is what the server has, and `robin_key` where Robin's objects are looked up.
pub record Storing {T : Types} (K : Kube T) (view : K.World → Stored T) (robin_key : NamespacedName)
    : Type 0 where
  pub clock_same : (w : K.World) → view (K.now w).1 ≡ view w
  pub service_account_read :
      (w : K.World)
      → Answers K (view w).service_account (K.get_service_account robin_key w).0
        × (view (K.get_service_account robin_key w).1 ≡ view w)
  pub role_read :
      (w : K.World)
      → Answers K (view w).role (K.get_role robin_key w).0
        × (view (K.get_role robin_key w).1 ≡ view w)
  pub role_binding_read :
      (w : K.World)
      → Answers K (view w).role_binding (K.get_role_binding robin_key w).0
        × (view (K.get_role_binding robin_key w).1 ≡ view w)
  pub deployment_read :
      (w : K.World)
      → Answers K (view w).deployment (K.get_deployment robin_key w).0
        × (view (K.get_deployment robin_key w).1 ≡ view w)
  pub service_account_created :
      (o : ServiceAccount T) (w : K.World)
      → o.meta.namespace ≡ robin_key.namespace
      → o.meta.name ≡ robin_key.name
      → (view w).service_account ≡ none
      → ((K.submit (create (of_service_account o)) w).0 ≡ ok tt)
        × ((kept : ServiceAccount T) × SameMeta kept.meta o.meta
            × (view (K.submit (create (of_service_account o)) w).1
                ≡ record (view w) { service_account = some kept }))
  pub service_account_patched :
      (a o : ServiceAccount T) (w : K.World)
      → (view w).service_account ≡ some a
      → ((K.submit (patch (of_service_account a) (of_service_account o)) w).0 ≡ ok tt)
        × ((kept : ServiceAccount T) × SameMeta kept.meta o.meta
            × (view (K.submit (patch (of_service_account a) (of_service_account o)) w).1
                ≡ record (view w) { service_account = some kept }))
  pub role_created :
      (o : Role T) (w : K.World)
      → o.meta.namespace ≡ robin_key.namespace
      → o.meta.name ≡ robin_key.name
      → (view w).role ≡ none
      → ((K.submit (create (of_role o)) w).0 ≡ ok tt)
        × ((kept : Role T) × SameMeta kept.meta o.meta
            × (kept.rules ≡ o.rules)
            × (view (K.submit (create (of_role o)) w).1 ≡ record (view w) { role = some kept }))
  pub role_patched :
      (a o : Role T) (w : K.World)
      → (view w).role ≡ some a
      → ((K.submit (patch (of_role a) (of_role o)) w).0 ≡ ok tt)
        × ((kept : Role T) × SameMeta kept.meta o.meta
            × (kept.rules ≡ o.rules)
            × (view (K.submit (patch (of_role a) (of_role o)) w).1
                ≡ record (view w) { role = some kept }))
  pub role_binding_created :
      (o : RoleBinding T) (w : K.World)
      → o.meta.namespace ≡ robin_key.namespace
      → o.meta.name ≡ robin_key.name
      → (view w).role_binding ≡ none
      → ((K.submit (create (of_role_binding o)) w).0 ≡ ok tt)
        × ((kept : RoleBinding T) × SameMeta kept.meta o.meta
            × (kept.subjects ≡ o.subjects)
            × (kept.role_ref ≡ o.role_ref)
            × (view (K.submit (create (of_role_binding o)) w).1
                ≡ record (view w) { role_binding = some kept }))
  pub role_binding_patched :
      (a o : RoleBinding T) (w : K.World)
      → (view w).role_binding ≡ some a
      → ((K.submit (patch (of_role_binding a) (of_role_binding o)) w).0 ≡ ok tt)
        × ((kept : RoleBinding T) × SameMeta kept.meta o.meta
            × (kept.subjects ≡ o.subjects)
            × (kept.role_ref ≡ o.role_ref)
            × (view (K.submit (patch (of_role_binding a) (of_role_binding o)) w).1
                ≡ record (view w) { role_binding = some kept }))
  pub role_binding_deleted :
      (a : RoleBinding T) (w : K.World)
      → (view w).role_binding ≡ some a
      → ((K.submit (delete role_binding robin_key) w).0 ≡ ok tt)
        × (view (K.submit (delete role_binding robin_key) w).1
            ≡ record (view w) { role_binding = none })
  pub deployment_created :
      (o : Deployment T) (w : K.World)
      → o.meta.namespace ≡ robin_key.namespace
      → o.meta.name ≡ robin_key.name
      → (view w).deployment ≡ none
      → ((K.submit (create (of_deployment o)) w).0 ≡ ok tt)
        × ((kept : Deployment T) × KeptDeployment K kept o
            × (view (K.submit (create (of_deployment o)) w).1
                ≡ record (view w) { deployment = some kept }))
  pub deployment_patched :
      (a o : Deployment T) (w : K.World)
      → (view w).deployment ≡ some a
      → ((K.submit (patch (of_deployment a) (of_deployment o)) w).0 ≡ ok tt)
        × ((kept : Deployment T) × KeptDeployment K kept o
            × (view (K.submit (patch (of_deployment a) (of_deployment o)) w).1
                ≡ record (view w) { deployment = some kept }))
