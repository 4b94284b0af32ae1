-- ===== src/Robin/Annotations/Converges.antt =====
-- That a patched Deployment needs no further patch.
use redkey_operator.Common.{
  String, true, false, ◌==◌, none, some, [], ◌≡◌, refl, ap, ◌∙◌, arith, if◌then◌else◌, eq_refl,
  eq_iff, Option-cases, Bool-cases, inl, inr,
}
use redkey_operator.Common.Int.{ℤ, eq→eqb_ℤ}
use redkey_operator.Common.GoMap.{
  GoMap, entries, lookup, copy, Same, find-insert, find-copy, lookup-made_unless_empty, find-erase,
}
use redkey_operator.Api.Types.{Types}
use redkey_operator.Api.Workload
use redkey_operator.Kube.Client.{Kube}
use redkey_operator.Kube.Laws.{EqualityLaws}
use redkey_operator.Robin.Annotations.{
  deployment_revision_annotation, strip_managed_annotations, preserve_managed_annotations,
  robin_deployment_needs_update, replicas_differ, patched_deployment,
}

-- Stripping removes the entry that Kubernetes manages, and no other.
pub lookup-strip_managed_annotations :
    (m : GoMap String) (k : String)
    → lookup k (strip_managed_annotations m)
      ≡ (if k == deployment_revision_annotation then none else lookup k m)
unfolding strip_managed_annotations
lookup-strip_managed_annotations m k =
    elim (Option-cases (lookup deployment_revision_annotation m)) [
      | inl e ↦ ground (arith, e, eq_iff k deployment_revision_annotation, ap (λ x. lookup x m))
      | inr (v, e) ↦
          rw (e, strip_managed_annotations)
            (lookup-made_unless_empty _ k ∙ find-erase deployment_revision_annotation k (entries m))
    ]

-- Preserving adds the existing Deployment's entry, and changes no other.
pub lookup-preserve_managed_annotations :
    (existing desired : GoMap String) (k : String)
    → lookup k (preserve_managed_annotations existing desired)
      ≡ (elim (lookup deployment_revision_annotation existing) [
        | none ↦ lookup k desired
        | some rev ↦ if k == deployment_revision_annotation then some rev else lookup k desired
      ])
unfolding preserve_managed_annotations
lookup-preserve_managed_annotations existing desired k =
    elim (Option-cases (lookup deployment_revision_annotation existing)) [
      | inl e ↦ ground (arith, e)
      | inr (rev, e) ↦
          rw (e, preserve_managed_annotations)
            (find-insert deployment_revision_annotation k rev (copy [] (entries desired))
              ∙ ground (arith, find-copy k [] (entries desired)))
    ]

-- What was preserved is what a comparison strips again.
strip-preserve :
    (existing desired : GoMap String)
    → lookup deployment_revision_annotation desired ≡ none
    → Same (strip_managed_annotations (preserve_managed_annotations existing desired)) desired
strip-preserve existing desired h k =
    lookup-strip_managed_annotations _ k
    ∙ ground (
      arith,
      h,
      lookup-preserve_managed_annotations existing desired k,
      eq_iff k deployment_revision_annotation,
      ap (λ x. lookup x desired),
    )

module _ {T : Types} (K : Kube T) (laws : EqualityLaws K) where
  -- Where semantic equality of maps is that of their lookups and no object differs from itself:
  -- after a patch the Deployment needs no update, if the desired one has a number of replicas and
  -- its annotations do not name the revision.
  pub robin_deployment_needs_update-patched :
      (existing desired : Workload.Deployment T) (replicas : ℤ)
      → desired.spec.replicas ≡ some replicas
      → lookup deployment_revision_annotation desired.meta.annotations ≡ none
      → robin_deployment_needs_update K (patched_deployment existing desired) desired ≡ false
  unfolding robin_deployment_needs_update patched_deployment replicas_differ
  robin_deployment_needs_update-patched existing desired replicas some_replicas unmanaged = ground (
    arith,
    some_replicas,
    eq→eqb_ℤ replicas replicas refl,
    equal_self desired.meta.labels,
    equal_self desired.spec.template.labels,
    equal_self desired.spec.template.annotations,
    laws.deep_derivative_refl desired.spec.template.spec,
    equal_stripped,
  )
    where
      equal_self : (m : GoMap String) → K.deep_equal_maps m m ≡ true
      equal_self m = (laws.deep_equal_maps-iff m m).1 (λ k. refl)

      equal_stripped :
          K.deep_equal_maps
            (strip_managed_annotations
              (preserve_managed_annotations existing.meta.annotations desired.meta.annotations))
            desired.meta.annotations
          ≡ true
      equal_stripped =
          (laws.deep_equal_maps-iff _ _).1
            (strip-preserve existing.meta.annotations desired.meta.annotations unmanaged)

  -- Where semantic equality of maps is that of their lookups: with the revision among the desired
  -- annotations every Deployment needs an update, also one that was just patched.
  pub robin_deployment_needs_update-revision :
      (existing desired : Workload.Deployment T) (rev : String)
      → lookup deployment_revision_annotation desired.meta.annotations ≡ some rev
      → robin_deployment_needs_update K existing desired ≡ true
  unfolding robin_deployment_needs_update
  robin_deployment_needs_update-revision existing desired rev managed =
      elim (Bool-cases (
        K.deep_equal_maps (strip_managed_annotations existing.meta.annotations)
          desired.meta.annotations)) [
            | inl e ↦ absurd (
                ground (
                  arith,
                  (laws.deep_equal_maps-iff _ _).0 e deployment_revision_annotation,
                  lookup-strip_managed_annotations existing.meta.annotations
                      deployment_revision_annotation,
                  eq_refl deployment_revision_annotation,
                  managed,
                ))
            | inr e ↦ ground (arith, e)
          ]
