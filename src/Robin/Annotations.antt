-- ===== src/Robin/Annotations.antt =====
-- redkey_robin.go: the annotation that Kubernetes keeps on a Deployment, and
-- robinDeploymentNeedsUpdate.
pub mod Converges
use redkey_operator.Common.{
  String, Bool, true, false, not, ◌||◌, Option, none, some, List, [], ◌∷◌, if◌then◌else◌, Option,
}
use redkey_operator.Common.Int.{ℤ, eqb_ℤ}
use redkey_operator.Common.GoMap.{GoMap, nil, made, entries, lookup, copy, insert, erase, is_empty}
use redkey_operator.Api.Types.{Types}
use redkey_operator.Api.Workload
use redkey_operator.Kube.Client.{Kube}

abbrev pub deployment_revision_annotation : String
deployment_revision_annotation = "deployment.kubernetes.io/revision"

unfoldable pub strip_managed_annotations : GoMap String → GoMap String
unfolding erase
strip_managed_annotations annotations = elim (lookup deployment_revision_annotation annotations) [
  | none ↦ annotations
  | some _ ↦
      let out = erase deployment_revision_annotation (entries annotations) in
      if is_empty out then nil else made out
]

unfoldable pub preserve_managed_annotations : GoMap String → GoMap String → GoMap String
unfolding copy insert
preserve_managed_annotations existing desired =
    elim (lookup deployment_revision_annotation existing) [
      | none ↦ desired
      | some rev ↦ made (insert deployment_revision_annotation rev (copy [] (entries desired)))
    ]

-- `existing == nil || *existing != *desired`. The desired pointer is never nil: a nil one would
-- end the program.
unfoldable pub replicas_differ : Option ℤ → Option ℤ → Bool
replicas_differ none desired = true
replicas_differ (some existing) (some desired) = not (eqb_ℤ existing desired)
replicas_differ (some existing) none = true

module _ {T : Types} (K : Kube T) where
  unfoldable pub robin_deployment_needs_update :
      Workload.Deployment T → Workload.Deployment T → Bool
  unfolding strip_managed_annotations replicas_differ
  robin_deployment_needs_update existing desired =
      replicas_differ existing.spec.replicas desired.spec.replicas
      || not (K.deep_equal_maps existing.meta.labels desired.meta.labels)
      || not (
          K.deep_equal_maps (strip_managed_annotations existing.meta.annotations)
            desired.meta.annotations)
      || not (K.deep_equal_maps existing.spec.template.labels desired.spec.template.labels)
      || not
          (K.deep_equal_maps existing.spec.template.annotations desired.spec.template.annotations)
      || not (K.deep_derivative desired.spec.template.spec existing.spec.template.spec)

-- What `ensureRobinDeployment` writes into the existing Deployment before it is patched.
unfoldable pub patched_deployment :
    {T : Types} → Workload.Deployment T → Workload.Deployment T → Workload.Deployment T
unfolding preserve_managed_annotations
patched_deployment existing desired = record existing {
  meta = record existing.meta {
    labels = desired.meta.labels;
    annotations = preserve_managed_annotations existing.meta.annotations desired.meta.annotations;
  };
  spec = record existing.spec {
    replicas = desired.spec.replicas;
    template = desired.spec.template;
  };
}
