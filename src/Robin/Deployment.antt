-- ===== src/Robin/Deployment.antt =====
-- redkey_robin.go: buildDesiredRobinDeployment.
pub mod Identity
use redkey_operator.Common.{
  String, Bool, true, false, Option, none, some, List, [], ◌∷◌, ◌==◌, if◌then◌else◌,
}
use redkey_operator.Common.Int.{pos}
use redkey_operator.Common.GoMap.{GoMap, nil, entries, is_empty}
use redkey_operator.Api.Types.{Types}
use redkey_operator.Api.Meta.{Container, ResourceRequirements, no_resources, object_meta}
use redkey_operator.Api.Override.{PartialPodSpec, PartialPodTemplateSpec}
use redkey_operator.Api.Redkey.{Redkey}
use redkey_operator.Api.Workload.{PodSpec, Deployment}
use redkey_operator.Robin.Merge.{deref_map, merge_meta, robin_name, base_labels}
use redkey_operator.Robin.Env.{robin_default_env_vars, merge_env_vars}

-- `if len(new) > 0 { old = new }`
abbrev or_list {ℓ} : {A : Type ℓ} → List A → List A → List A
or_list [] old = old
or_list (x ∷ xs) old = x ∷ xs

-- `if new != nil { old = new }`
abbrev or_pointer {ℓ} : {A : Type ℓ} → Option A → Option A → Option A
or_pointer none old = old
or_pointer (some a) old = some a

-- `if new != "" { old = new }`
abbrev or_text : String → String → String
or_text new old = if new == "" then old else new

abbrev or_map : GoMap String → GoMap String → GoMap String
or_map new old = if is_empty (entries new) then old else new

module _ {T : Types} where
  -- The base container, with the first-level resources.
  unfoldable pub base_container : Redkey T → Container T
  unfolding robin_default_env_vars
  base_container cluster = record {
    name = "robin";
    image = cluster.spec.robin.image;
    args = "--cluster-name=$(CLUSTER_NAME)" ∷ "--namespace=$(NAMESPACE)" ∷ [];
    env = robin_default_env_vars cluster;
    env_from = [];
    ports = record { name = "metrics"; container_port = pos 8080; protocol = "TCP" } ∷ [];
    resources = elim cluster.spec.robin.resources [
      | some resources ↦ resources
      | none ↦ no_resources T
    ];
    volume_mounts = [];
    security_context = none;
    rest = T.no_rest;
  }

  -- `src.Resources.Limits != nil || src.Resources.Requests != nil`
  abbrev or_resources : ResourceRequirements T → ResourceRequirements T → ResourceRequirements T
  or_resources new old = elim new.limits [
    | some _ ↦ new
    | none ↦ elim new.requests [ some _ ↦ new | none ↦ old ]
  ]

  -- The overrides from the first container of the template.
  unfoldable pub override_container : Container T → Container T → Container T
  unfolding merge_env_vars
  override_container src container = record container {
    image = or_text src.image container.image;
    resources = or_resources src.resources container.resources;
    env = elim src.env [ [] ↦ container.env | (_ ∷ _) ↦ merge_env_vars container.env src.env ];
    env_from = or_list src.env_from container.env_from;
    volume_mounts = or_list src.volume_mounts container.volume_mounts;
    security_context = or_pointer src.security_context container.security_context;
  }

  first_container : List (Container T) → Container T → Container T
  unfolding override_container
  first_container [] container = container
  first_container (src ∷ _) container = override_container src container

  unfoldable pub robin_container : Redkey T → Container T
  unfolding base_container first_container merge_env_vars robin_default_env_vars
  robin_container cluster = elim cluster.spec.robin.template [
    | none ↦ base_container cluster
    | some tpl ↦
        let container = first_container tpl.spec.containers (base_container cluster) in
        record container { env = merge_env_vars container.env (robin_default_env_vars cluster) }
  ]

  base_pod_spec : Redkey T → PodSpec T
  unfolding robin_name robin_container
  base_pod_spec cluster = record {
    service_account_name = robin_name cluster;
    containers = robin_container cluster ∷ [];
    node_selector = nil;
    tolerations = [];
    affinity = none;
    security_context = none;
    image_pull_secrets = [];
    priority_class_name = "";
    topology_spread_constraints = [];
    volumes = [];
    rest = T.no_pod_rest;
  }

  -- The pod-level overrides.
  override_pod_spec : PartialPodSpec T → PodSpec T → PodSpec T
  override_pod_spec tpl pod_spec = record pod_spec {
    node_selector = or_map tpl.node_selector pod_spec.node_selector;
    tolerations = or_list tpl.tolerations pod_spec.tolerations;
    affinity = or_pointer tpl.affinity pod_spec.affinity;
    security_context = or_pointer tpl.security_context pod_spec.security_context;
    image_pull_secrets = or_list tpl.image_pull_secrets pod_spec.image_pull_secrets;
    priority_class_name = or_text tpl.priority_class_name pod_spec.priority_class_name;
    topology_spread_constraints =
        or_list tpl.topology_spread_constraints pod_spec.topology_spread_constraints;
    volumes = or_list tpl.volumes pod_spec.volumes;
  }

  unfoldable pub robin_pod_spec : Redkey T → PodSpec T
  unfolding base_pod_spec override_pod_spec
  robin_pod_spec cluster = elim cluster.spec.robin.template [
    | none ↦ base_pod_spec cluster
    | some tpl ↦ override_pod_spec tpl.spec (base_pod_spec cluster)
  ]

  -- The metadata of the template of Robin's pod, nil if there is none.
  unfoldable pub template_labels : Redkey T → GoMap String
  template_labels cluster = elim cluster.spec.robin.template [
    | none ↦ nil
    | some tpl ↦ tpl.metadata.labels
  ]

  unfoldable pub template_annotations : Redkey T → GoMap String
  template_annotations cluster = elim cluster.spec.robin.template [
    | none ↦ nil
    | some tpl ↦ tpl.metadata.annotations
  ]

  unfoldable pub build_desired_robin_deployment : Redkey T → Deployment T
  unfolding deref_map merge_meta robin_name base_labels robin_pod_spec template_labels
      template_annotations
  build_desired_robin_deployment cluster =
      let spec_labels = deref_map cluster.spec.labels in
      let spec_annotations = deref_map cluster.spec.annotations in
      record {
        meta =
            object_meta T (robin_name cluster) cluster.meta.namespace
              (merge_meta spec_labels nil (base_labels cluster))
              (merge_meta spec_annotations nil nil);
        spec = record {
          replicas = some (pos 1);
          selector = base_labels cluster;
          template = record {
            labels = merge_meta spec_labels (template_labels cluster) (base_labels cluster);
            annotations = merge_meta spec_annotations (template_annotations cluster) nil;
            spec = robin_pod_spec cluster;
          };
          rest = T.no_deployment_rest;
        };
      }
