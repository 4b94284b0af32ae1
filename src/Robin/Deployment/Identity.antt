-- ===== src/Robin/Deployment/Identity.antt =====
-- What a user's overrides cannot change in Robin's Deployment.
use redkey_operator.Common.{
  String, none, some, List, [], ◌∷◌, ◌≡◌, refl, ◌∙◌, arith, Option-cases, inl, inr,
}
use redkey_operator.Common.GoMap.{lookup}
use redkey_operator.Api.Types.{Types}
use redkey_operator.Api.Meta.{EnvVar}
use redkey_operator.Api.Redkey.{Redkey}
use redkey_operator.Robin.Merge.{deref_map, base_labels}
use redkey_operator.Robin.Merge.Precedence.{lookup-merge_meta}
use redkey_operator.Robin.Env.{robin_default_env_vars, merge_env_vars}
use redkey_operator.Robin.Env.Precedence.{last_named, last_named-merge_env_vars}
use redkey_operator.Robin.Deployment.{
  base_container, first_container, robin_container, build_desired_robin_deployment, template_labels,
  robin_pod_spec,
}

module _ {T : Types} where
  default_env :
      (cluster : Redkey T) (k : String) (v : EnvVar T)
      → last_named k (robin_default_env_vars cluster) ≡ some v
      → (env : List (EnvVar T))
      → last_named k (merge_env_vars env (robin_default_env_vars cluster)) ≡ some v
  default_env cluster k v h env =
      ground (arith, last_named-merge_env_vars env (robin_default_env_vars cluster) k, h)

  last_named-robin_container :
      (cluster : Redkey T) (k : String) (v : EnvVar T)
      → last_named k (robin_default_env_vars cluster) ≡ some v
      → last_named k (robin_container cluster).env ≡ some v
  unfolding robin_container base_container
  last_named-robin_container cluster k v h = elim (Option-cases cluster.spec.robin.template) [
    | inl e ↦ ground (arith, e, h)
    | inr (tpl, e) ↦
        rw (e, robin_container)
          (default_env cluster k v h
            (first_container tpl.spec.containers (base_container cluster)).env)
  ]

  -- Whatever the template of Robin's pod asks for, the only container of the Deployment's pods ends
  -- with the cluster's own name and namespace in the two variables that Robin is started with.
  pub robin_container-identity :
      (cluster : Redkey T)
      → ((build_desired_robin_deployment cluster).spec.template.spec.containers
          ≡ robin_container cluster ∷ [])
        × (last_named "CLUSTER_NAME" (robin_container cluster).env
            ≡ some (record { name = "CLUSTER_NAME"; value = cluster.meta.name; value_from = none }))
        × (last_named "NAMESPACE" (robin_container cluster).env
            ≡ some
                (record { name = "NAMESPACE"; value = cluster.meta.namespace; value_from = none }))
  unfolding build_desired_robin_deployment robin_pod_spec robin_default_env_vars
  robin_container-identity cluster = (
    ground arith,
    last_named-robin_container cluster _ _ refl,
    last_named-robin_container cluster _ _ refl,
  )

  -- Every label that the Deployment selects its pods by stands on the pods of its template with
  -- that value, whatever labels the spec and the template ask for.
  pub selector-template :
      (cluster : Redkey T) (k value : String)
      → lookup k (build_desired_robin_deployment cluster).spec.selector ≡ some value
      → lookup k (build_desired_robin_deployment cluster).spec.template.labels ≡ some value
  unfolding build_desired_robin_deployment
  selector-template cluster k value h =
      lookup-merge_meta (deref_map cluster.spec.labels) (template_labels cluster)
        (base_labels cluster) k
      ∙ ground (arith, h)
