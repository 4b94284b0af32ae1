-- ===== src/Tests/Robin.antt =====
-- The theorems on Robin's objects at concrete inputs.
use redkey_operator.Common.{String, true, false, Option, none, some, [], ◌∷◌, ◌≡◌, refl}
use redkey_operator.Common.Int.{ℤ, pos}
use redkey_operator.Common.GoMap.{GoMap, nil, made, lookup}
use redkey_operator.Api.Meta.{object_meta}
use redkey_operator.Api.Workload
use redkey_operator.Kube.Client.{ok}
use redkey_operator.Robin.Merge.{merge_meta, base_labels}
use redkey_operator.Robin.Merge.Precedence.{lookup-merge_meta}
use redkey_operator.Robin.Env.{robin_default_env_vars, merge_env_vars}
use redkey_operator.Robin.Env.Precedence.{last_named, last_named-merge_env_vars}
use redkey_operator.Robin.Deployment.{robin_container, build_desired_robin_deployment}
use redkey_operator.Robin.Deployment.Identity.{robin_container-identity, selector-template}
use redkey_operator.Robin.Annotations.{robin_deployment_needs_update, patched_deployment}
use redkey_operator.Robin.Annotations.Converges.{
  robin_deployment_needs_update-patched, robin_deployment_needs_update-revision,
}
use redkey_operator.Tests.Server.{types, server, server-EqualityLaws}
use redkey_operator.Tests.Objects.{cluster, log_level}

abbrev team_a : GoMap String
team_a = made (("team", "a") ∷ [])

abbrev team_b : GoMap String
team_b = made (("team", "b") ∷ [])

lookup-merge_meta_example :
    lookup "team" (merge_meta team_a team_b (made (("app", "x") ∷ []))) ≡ some "b"
lookup-merge_meta_example = lookup-merge_meta team_a team_b (made (("app", "x") ∷ [])) "team"

last_named-merge_env_vars_example :
    last_named "LOG_LEVEL"
      (merge_env_vars (robin_default_env_vars cluster) (log_level "info" ∷ log_level "debug" ∷ []))
    ≡ some (log_level "debug")
last_named-merge_env_vars_example =
    last_named-merge_env_vars (robin_default_env_vars cluster)
      (log_level "info" ∷ log_level "debug" ∷ []) "LOG_LEVEL"

robin_container-identity_example :
    ((build_desired_robin_deployment cluster).spec.template.spec.containers
      ≡ robin_container cluster ∷ [])
    × (last_named "CLUSTER_NAME" (robin_container cluster).env
        ≡ some (record { name = "CLUSTER_NAME"; value = "cache"; value_from = none }))
    × (last_named "NAMESPACE" (robin_container cluster).env
        ≡ some (record { name = "NAMESPACE"; value = "shop"; value_from = none }))
robin_container-identity_example = robin_container-identity cluster

selected :
    lookup "redkey.inditex.dev/cluster" (build_desired_robin_deployment cluster).spec.selector
    ≡ some "cache"
unfolding build_desired_robin_deployment base_labels
selected = refl

selector-template_example :
    lookup "redkey.inditex.dev/cluster"
      (build_desired_robin_deployment cluster).spec.template.labels
    ≡ some "cache"
selector-template_example = selector-template cluster "redkey.inditex.dev/cluster" "cache" selected

abbrev revised : GoMap String
revised = made (("deployment.kubernetes.io/revision", "4") ∷ ("team", "a") ∷ [])

-- A Deployment with some annotations.
abbrev deployment_with : GoMap String → Option ℤ → Workload.Deployment types
deployment_with annotations replicas = record {
  meta = object_meta types "cache-robin" "shop" team_a annotations;
  spec = record {
    replicas = replicas;
    selector = team_a;
    template = record {
      labels = team_a;
      annotations = nil;
      spec = record {
        service_account_name = "cache-robin";
        containers = [];
        node_selector = nil;
        tolerations = [];
        affinity = none;
        security_context = none;
        image_pull_secrets = [];
        priority_class_name = "";
        topology_spread_constraints = [];
        volumes = [];
        rest = tt;
      };
    };
    rest = tt;
  };
}

robin_deployment_needs_update-patched_example :
    robin_deployment_needs_update
      (server (ok cluster) [])
      (patched_deployment (deployment_with revised none) (deployment_with team_b (some (pos 1))))
      (deployment_with team_b (some (pos 1)))
    ≡ false
robin_deployment_needs_update-patched_example =
    robin_deployment_needs_update-patched (server (ok cluster) [])
      (server-EqualityLaws (ok cluster) []) (deployment_with revised none)
      (deployment_with team_b (some (pos 1))) (pos 1) refl refl

robin_deployment_needs_update-revision_example :
    robin_deployment_needs_update
      (server (ok cluster) [])
      (deployment_with revised (some (pos 1)))
      (deployment_with revised (some (pos 1)))
    ≡ true
robin_deployment_needs_update-revision_example =
    robin_deployment_needs_update-revision (server (ok cluster) [])
      (server-EqualityLaws (ok cluster) []) (deployment_with revised (some (pos 1)))
      (deployment_with revised (some (pos 1))) "4" refl
