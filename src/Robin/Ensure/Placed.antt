-- ===== src/Robin/Ensure/Placed.antt =====
-- Robin's four objects as a server keeps them, and when ensureRBAC and ensureRobinDeployment find
-- nothing to correct in them.
use redkey_operator.Common.{
  String, true, false, not, ◌||◌, Option, none, some, ◌≡◌, ◌==◌, refl, sym, ap, ◌∙◌, arith, eq_iff,
}
use redkey_operator.Common.Int.{pos, eq→eqb_ℤ}
use redkey_operator.Common.GoMap.{GoMap, lookup}
use redkey_operator.Api.Types.{Types}
use redkey_operator.Api.Meta.{ObjectMeta}
use redkey_operator.Api.Redkey.{Redkey}
use redkey_operator.Api.Workload.{ServiceAccount, Role, RoleBinding, RoleRef, Deployment}
use redkey_operator.Kube.Client.{ok}
use redkey_operator.Kube.Action.{Env}
use redkey_operator.Kube.Laws.{EqualityLaws}
use redkey_operator.Kube.Stored.{Stored, KeptDeployment}
use redkey_operator.Robin.Annotations.{
  deployment_revision_annotation, strip_managed_annotations, robin_deployment_needs_update,
  replicas_differ, patched_deployment,
}
use redkey_operator.Robin.Annotations.Converges.{
  lookup-strip_managed_annotations, lookup-preserve_managed_annotations,
}
use redkey_operator.Robin.Deployment.{build_desired_robin_deployment}
use redkey_operator.Robin.Ensure.{
  rbac_meta, desired_robin_rules, desired_subjects, desired_role_ref, role_refs_differ,
  metadata_differs,
}

-- The metadata of the desired objects, with the owner reference.
pub record Owned {T : Types} (K : Env T) (cluster : Redkey T) : Type 0 where
  pub rbac : ObjectMeta T
  pub rbac_owned : K.set_controller_reference cluster.meta (rbac_meta cluster) ≡ ok rbac
  pub deployment : ObjectMeta T
  pub deployment_owned :
      K.set_controller_reference cluster.meta (build_desired_robin_deployment cluster).meta
      ≡ ok deployment

-- The object is there and right.
abbrev pub There : {A : Type 0} → (A → Type 0) → Option A → Type 0
There {A} Right o = (a : A) × (o ≡ some a) × Right a

module _ {T : Types} (K : Env T) (cluster : Redkey T) (owned : Owned K cluster) where
  abbrev pub desired_deployment : Deployment T
  desired_deployment = record (build_desired_robin_deployment cluster) { meta = owned.deployment }

  abbrev pub RightServiceAccount : ServiceAccount T → Type 0
  RightServiceAccount a = metadata_differs K a.meta owned.rbac ≡ false

  abbrev pub RightRole : Role T → Type 0
  RightRole a =
      (not (K.deep_equal a.rules desired_robin_rules) || metadata_differs K a.meta owned.rbac)
      ≡ false

  abbrev pub RightRoleBinding : RoleBinding T → Type 0
  RightRoleBinding a =
      (role_refs_differ a.role_ref (desired_role_ref cluster) ≡ false)
      × ((not (K.deep_equal a.subjects (desired_subjects cluster))
            || metadata_differs K a.meta owned.rbac)
          ≡ false)

  abbrev pub RightDeployment : Deployment T → Type 0
  RightDeployment a = robin_deployment_needs_update K.kube a desired_deployment ≡ false

  pub record PlacedRbac (v : Stored T) : Type 0 where
    pub service_account : There RightServiceAccount v.service_account
    pub role : There RightRole v.role
    pub role_binding : There RightRoleBinding v.role_binding

  -- All four objects are.
  pub record Placed (v : Stored T) : Type 0 where
    pub rbac : PlacedRbac v
    pub deployment : There RightDeployment v.deployment

module _ {T : Types} (K : Env T) (equal : EqualityLaws K.kube) where
  pub metadata_differs-kept :
      (kept desired : ObjectMeta T)
      → kept.labels ≡ desired.labels
      → kept.annotations ≡ desired.annotations
      → metadata_differs K kept desired ≡ false
  unfolding metadata_differs
  metadata_differs-kept kept desired labels annotations =
      rw (labels, annotations)
        (ground (
          arith,
          (equal.deep_equal_maps-iff desired.labels desired.labels).1 (λ k. refl),
          (equal.deep_equal_maps-iff desired.annotations desired.annotations).1 (λ k. refl),
        ))

pub role_refs_differ_self : (r : RoleRef) → role_refs_differ r r ≡ false
unfolding role_refs_differ
role_refs_differ_self r =
    ground (arith, eq_iff r.api_group r.api_group, eq_iff r.kind r.kind, eq_iff r.name r.name)

module _ {T : Types} (K : Env T) (equal : EqualityLaws K.kube) (cluster : Redkey T)
    (owned : Owned K cluster)
    (unmanaged : lookup deployment_revision_annotation owned.deployment.annotations ≡ none) where
  -- A kept Deployment whose desired fields are those asked for needs no update.
  pub RightDeployment-kept :
      (kept sent : Deployment T)
      → KeptDeployment K.kube kept sent
      → sent.meta.labels ≡ owned.deployment.labels
      → ((k : String)
          → (k == deployment_revision_annotation) ≡ false
          → lookup k sent.meta.annotations ≡ lookup k owned.deployment.annotations)
      → sent.spec.replicas ≡ (build_desired_robin_deployment cluster).spec.replicas
      → sent.spec.template ≡ (build_desired_robin_deployment cluster).spec.template
      → RightDeployment K cluster owned kept
  unfolding robin_deployment_needs_update replicas_differ build_desired_robin_deployment
  RightDeployment-kept kept sent k labels annotations replicas template = ground (
    arith,
    k.replicas,
    replicas,
    eq→eqb_ℤ (pos 1) (pos 1) refl,
    equal_self _ _ (k.labels ∙ labels),
    equal_self _ _ (k.template_labels ∙ ap (λ t. t.labels) template),
    equal_self _ _ (k.template_annotations ∙ ap (λ t. t.annotations) template),
    same_pods,
    equal_stripped,
  )
    where
      same_pods :
          K.deep_derivative
            (build_desired_robin_deployment cluster).spec.template.spec
            kept.spec.template.spec
          ≡ true
      same_pods =
          ap (λ t. K.deep_derivative t.spec kept.spec.template.spec) (sym template) ∙ k.pod_spec

      equal_self : (m n : GoMap String) → m ≡ n → K.deep_equal_maps m n ≡ true
      equal_self m n e = (equal.deep_equal_maps-iff m n).1 (λ k. ap (lookup k) e)

      equal_stripped :
          K.deep_equal_maps
            (strip_managed_annotations kept.meta.annotations)
            owned.deployment.annotations
          ≡ true
      equal_stripped = (equal.deep_equal_maps-iff _ _).1 (λ j.
          lookup-strip_managed_annotations kept.meta.annotations j
          ∙ ground (
            arith,
            unmanaged,
            k.annotations j,
            annotations j,
            eq_iff j deployment_revision_annotation,
            ap (λ x. lookup x owned.deployment.annotations),
          ))

  pub RightDeployment-created :
      (kept : Deployment T)
      → KeptDeployment K.kube kept (desired_deployment K cluster owned)
      → RightDeployment K cluster owned kept
  RightDeployment-created kept k = RightDeployment-kept kept _ k refl (λ j e. refl) refl refl

  pub RightDeployment-patched :
      (kept existing : Deployment T)
      → KeptDeployment K.kube kept
          (patched_deployment existing (desired_deployment K cluster owned))
      → RightDeployment K cluster owned kept
  unfolding patched_deployment
  RightDeployment-patched kept existing k =
      RightDeployment-kept kept _ k refl
        (λ j e.
          lookup-preserve_managed_annotations existing.meta.annotations owned.deployment.annotations
            j
          ∙ ground (arith, e))
        refl refl
