-- ===== src/Robin/Ensure.antt =====
-- redkey_robin.go: DesiredRobinRules, ensureRBAC and ensureRobinDeployment.
pub mod Writes
pub mod Granted
pub mod InPlace
pub mod Provides
pub mod Placed
pub mod Puts
pub mod Leaves
pub mod Deploys
pub mod Rests
pub mod Places
use redkey_operator.Common.{
  String, Bool, true, false, not, ◌||◌, ◌&&◌, none, some, List, [], ◌∷◌, ◌==◌, if◌then◌else◌,
}
use redkey_operator.Common.GoMap.{GoMap, nil}
use redkey_operator.Api.Types.{Types}
use redkey_operator.Api.Meta.{NamespacedName, ObjectMeta, object_meta}
use redkey_operator.Api.Redkey.{Redkey}
use redkey_operator.Api.Workload.{
  ServiceAccount, Role, RoleBinding, RoleRef, PolicyRule, Subject, Deployment,
}
use redkey_operator.Kube.Client.{
  Result, ok, err, create, patch, delete, of_service_account, of_role, of_role_binding,
  of_deployment, role_binding, Error, Kind,
}
use redkey_operator.Kube.Collectors.{redkey_robin_deployment_changes}
use redkey_operator.Kube.Action.{
  Env, Action, ◌>>=◌, ◌>>◌, pure, fail, attempt, when, lift, read, send, emit, not_found,
}
use redkey_operator.Robin.Merge.{deref_map, merge_meta, robin_name, base_labels}
use redkey_operator.Robin.Annotations.{robin_deployment_needs_update, patched_deployment}
use redkey_operator.Robin.Deployment.{build_desired_robin_deployment}

abbrev all_verbs : List String
all_verbs = "get" ∷ "list" ∷ "watch" ∷ "create" ∷ "update" ∷ "patch" ∷ "delete" ∷ []

abbrev rule : String → List String → List String → PolicyRule
rule group resources verbs = record {
  api_groups = group ∷ [];
  resources = resources;
  verbs = verbs;
}

unfoldable pub desired_robin_rules : List PolicyRule
desired_robin_rules =
    rule "apps" ("statefulsets" ∷ []) all_verbs
    ∷ rule "" ("services" ∷ "configmaps" ∷ []) all_verbs
    ∷ rule "" ("pods" ∷ []) ("get" ∷ "list" ∷ "watch" ∷ "delete" ∷ [])
    ∷ rule "" ("persistentvolumeclaims" ∷ []) ("list" ∷ "delete" ∷ [])
    ∷ rule "policy" ("poddisruptionbudgets" ∷ []) all_verbs
    ∷ rule "" ("secrets" ∷ []) ("get" ∷ [])
    ∷ rule "redkey.inditex.dev" ("redkeys" ∷ []) ("get" ∷ [])
    ∷ rule "redkey.inditex.dev" ("redkeyconfigs" ∷ []) ("get" ∷ "list" ∷ "watch" ∷ [])
    ∷ rule "redkey.inditex.dev" ("redkeyconfigs/status" ∷ []) ("update" ∷ "patch" ∷ [])
    ∷ []

module _ {T : Types} where
  -- The key under which Robin's objects are looked up.
  unfoldable pub robin_key : Redkey T → NamespacedName
  unfolding robin_name
  robin_key cluster = record { namespace = cluster.meta.namespace; name = robin_name cluster }

  -- The metadata of the three RBAC objects, before the owner reference.
  unfoldable pub rbac_meta : Redkey T → ObjectMeta T
  unfolding robin_name base_labels deref_map merge_meta
  rbac_meta cluster =
      object_meta T (robin_name cluster) cluster.meta.namespace
        (merge_meta (deref_map cluster.spec.labels) nil (base_labels cluster))
        (merge_meta (deref_map cluster.spec.annotations) nil nil)

  unfoldable pub desired_subjects : Redkey T → List Subject
  unfolding robin_name
  desired_subjects cluster =
      record {
        kind = "ServiceAccount";
        name = robin_name cluster;
        namespace = cluster.meta.namespace;
      }
      ∷ []

  unfoldable pub desired_role_ref : Redkey T → RoleRef
  unfolding robin_name
  desired_role_ref cluster = record {
    api_group = "rbac.authorization.k8s.io";
    kind = "Role";
    name = robin_name cluster;
  }

-- Go's `!=` on two RoleRefs.
unfoldable pub role_refs_differ : RoleRef → RoleRef → Bool
role_refs_differ a b = not (a.api_group == b.api_group && a.kind == b.kind && a.name == b.name)

module _ {T : Types} (K : Env T) where
  -- `!DeepEqual(existing.Labels, desired.Labels) || !DeepEqual(existing.Annotations, …)`
  unfoldable pub metadata_differs : ObjectMeta T → ObjectMeta T → Bool
  metadata_differs existing desired =
      not (K.deep_equal_maps existing.labels desired.labels)
      || not (K.deep_equal_maps existing.annotations desired.annotations)

  -- The metadata that a patch writes: labels and annotations of the second, all else of the first.
  abbrev pub with_metadata : ObjectMeta T → ObjectMeta T → ObjectMeta T
  with_metadata existing desired = record existing {
    labels = desired.labels;
    annotations = desired.annotations;
  }

  -- What follows the `Get` of an object: create it if it is missing, correct it if it is there.
  abbrev pub create_or :
      {A : Type 0}
      → Result (Error K.ApiError) A
      → Action K (Unit {0})
      → (A → Action K (Unit {0}))
      → Action K (Unit {0})
  create_or (ok existing) missing found = found existing
  create_or (err e) missing found = if not_found K e then missing else fail e

  unfoldable pub ensure_service_account : Redkey T → Action K (Unit {0})
  unfolding rbac_meta robin_key metadata_differs
  ensure_service_account cluster = do
    meta ← lift (K.set_controller_reference cluster.meta (rbac_meta cluster))
    found ← attempt (read (K.get_service_account (robin_key cluster)))
    create_or found (send (create (of_service_account (record { meta = meta })))) λ existing.
        when (metadata_differs existing.meta meta) (
          send (
            patch (of_service_account existing)
              (of_service_account (record existing { meta = with_metadata existing.meta meta }))))

  unfoldable pub ensure_role : Redkey T → Action K (Unit {0})
  unfolding rbac_meta robin_key metadata_differs desired_robin_rules
  ensure_role cluster = do
    meta ← lift (K.set_controller_reference cluster.meta (rbac_meta cluster))
    found ← attempt (read (K.get_role (robin_key cluster)))
    create_or found (send (create (of_role (record { meta = meta; rules = desired_robin_rules }))))
        λ existing.
          when
            (not (K.deep_equal existing.rules desired_robin_rules)
              || metadata_differs existing.meta meta)
            (send (
              patch (of_role existing) (
                of_role (record {
                  meta = with_metadata existing.meta meta;
                  rules = desired_robin_rules;
                }))))

  -- A RoleRef cannot be changed: a binding with another one is deleted and created again.
  unfoldable pub ensure_role_binding : Redkey T → Action K (Unit {0})
  unfolding rbac_meta robin_key metadata_differs desired_subjects desired_role_ref role_refs_differ
  ensure_role_binding cluster = do
    meta ← lift (K.set_controller_reference cluster.meta (rbac_meta cluster))
    let desired : RoleBinding T = record {
      meta = meta;
      subjects = desired_subjects cluster;
      role_ref = desired_role_ref cluster;
    }
    found ← attempt (read (K.get_role_binding (robin_key cluster)))
    create_or found (send (create (of_role_binding desired))) λ existing.
        if role_refs_differ existing.role_ref desired.role_ref
        then (send (delete role_binding (robin_key cluster))
            >> send (create (of_role_binding desired)))
        else when
            (not (K.deep_equal existing.subjects desired.subjects)
              || metadata_differs existing.meta meta)
            (send (
              patch (of_role_binding existing) (
                of_role_binding (record existing {
                  meta = with_metadata existing.meta meta;
                  subjects = desired.subjects;
                }))))

  unfoldable pub ensure_rbac : Redkey T → Action K (Unit {0})
  unfolding ensure_service_account ensure_role ensure_role_binding
  ensure_rbac cluster = do
    ensure_service_account cluster
    ensure_role cluster
    ensure_role_binding cluster

  unfoldable pub ensure_robin_deployment : Redkey T → Action K (Unit {0})
  unfolding robin_key build_desired_robin_deployment robin_deployment_needs_update
      patched_deployment
  ensure_robin_deployment cluster = do
    let built : Deployment T = build_desired_robin_deployment cluster
    meta ← lift (K.set_controller_reference cluster.meta built.meta)
    let desired : Deployment T = record built { meta = meta }
    found ← attempt (read (K.get_deployment (robin_key cluster)))
    create_or found
        (do
          send (create (of_deployment desired))
          emit (K.inc redkey_robin_deployment_changes ("create" ∷ [])))
        λ existing. when (robin_deployment_needs_update K.kube existing desired) (do
          send
              (patch (of_deployment existing) (of_deployment (patched_deployment existing desired)))
          emit (K.inc redkey_robin_deployment_changes ("patch" ∷ [])))
