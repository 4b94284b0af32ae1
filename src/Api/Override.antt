-- ===== src/Api/Override.antt =====
-- api/v1beta1/redkey_types.go: the parts of RedkeySpec that are structs of their own.
use redkey_operator.Common.{String, Bool, Option, List}
use redkey_operator.Common.Int.{ℤ}
use redkey_operator.Common.GoMap.{GoMap}
use redkey_operator.Api.Types.{Types}
use redkey_operator.Api.Meta.{ObjectMeta, ResourceRequirements, Container}

pub record PartialPodSpec (T : Types) : Type 0 where
  pub containers : List (Container T)
  pub init_containers : List (Container T)
  pub ephemeral_containers : List T.EphemeralContainer
  pub restart_policy : String
  pub termination_grace_period_seconds : Option ℤ
  pub dns_policy : String
  pub node_selector : GoMap String
  pub service_account_name : String
  pub security_context : Option T.PodSecurityContext
  pub image_pull_secrets : List T.LocalObjectReference
  pub affinity : Option T.Affinity
  pub tolerations : List T.Toleration
  pub priority_class_name : String
  pub topology_spread_constraints : List T.TopologySpreadConstraint
  pub volumes : List T.Volume

pub record PartialPodTemplateSpec (T : Types) : Type 0 where
  pub metadata : ObjectMeta T
  pub spec : PartialPodSpec T

pub record PartialStatefulSetSpec (T : Types) : Type 0 where
  pub min_ready_seconds : Option ℤ
  pub replicas : Option ℤ
  pub selector : Option T.LabelSelector
  pub service_name : String
  pub template : Option (PartialPodTemplateSpec T)
  pub update_strategy : Option T.StatefulSetUpdateStrategy
  pub revision_history_limit : Option ℤ
  pub pod_management_policy : String
  pub volume_claim_templates : List T.PersistentVolumeClaim
  pub persistent_volume_claim_retention_policy : Option T.PersistentVolumeClaimRetentionPolicy
  pub ordinals : Option T.StatefulSetOrdinals

pub record PartialStatefulSet (T : Types) : Type 0 where
  pub api_version : String
  pub kind : String
  pub metadata : ObjectMeta T
  pub spec : Option (PartialStatefulSetSpec T)

pub record PartialServiceSpec (T : Types) : Type 0 where
  pub ports : List T.ServicePort
  pub selector : GoMap String
  pub cluster_ip : String
  pub service_type : String
  pub publish_not_ready_addresses : Bool

pub record PartialService (T : Types) : Type 0 where
  pub api_version : String
  pub kind : String
  pub metadata : ObjectMeta T
  pub spec : Option (PartialServiceSpec T)

pub record RedkeyOverrideSpec (T : Types) : Type 0 where
  pub stateful_set : Option (PartialStatefulSet T)
  pub service : Option (PartialService T)

pub record Pdb (T : Types) : Type 0 where
  pub enabled : Bool
  pub pdb_size_unavailable : T.IntOrString
  pub pdb_size_available : T.IntOrString

pub record RedisAuth : Type 0 where
  pub secret_name : String

pub record RobinConfigProfiling : Type 0 where
  pub enabled : Option Bool

pub record RobinConfigReconciler : Type 0 where
  pub interval_seconds : Option ℤ
  pub interval_on_error_seconds : Option ℤ
  pub interval_on_wait_seconds : Option ℤ

pub record RobinConfigCluster : Type 0 where
  pub connection_max_retries : Option ℤ
  pub connection_back_off_seconds : Option ℤ
  pub cluster_command_timeout_seconds : Option ℤ
  pub cluster_meet_wait_seconds : Option ℤ
  pub rebalance_timeout_seconds : Option ℤ

pub record RobinConfigMetrics : Type 0 where
  pub collection_interval_seconds : Option ℤ
  pub redis_info_keys : List String
  pub metrics_labels : GoMap String

pub record RobinConfig : Type 0 where
  pub reconciler : Option RobinConfigReconciler
  pub cluster : Option RobinConfigCluster
  pub metrics : Option RobinConfigMetrics
  pub profiling : Option RobinConfigProfiling

pub record RobinSpec (T : Types) : Type 0 where
  pub image : String
  pub resources : Option (ResourceRequirements T)
  pub template : Option (PartialPodTemplateSpec T)
  pub config : Option RobinConfig
