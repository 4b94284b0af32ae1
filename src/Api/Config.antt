-- ===== src/Api/Config.antt =====
-- api/v1beta1/redkeyconfig_types.go
use redkey_operator.Common.{String, Bool, Option, List}
use redkey_operator.Common.Int.{ℤ}
use redkey_operator.Common.GoMap.{GoMap}
use redkey_operator.Api.Types.{Types, Time}
use redkey_operator.Api.Meta.{ObjectMeta, Condition, ResourceRequirements}
use redkey_operator.Api.Override.{RedisAuth, RedkeyOverrideSpec, Pdb, RobinConfig}

abbrev pub config_phase_pending : String
config_phase_pending = "Pending"

abbrev pub config_phase_in_progress : String
config_phase_in_progress = "InProgress"

abbrev pub config_phase_superseded : String
config_phase_superseded = "Superseded"

abbrev pub config_phase_applied : String
config_phase_applied = "Applied"

abbrev pub cluster_status_ready : String
cluster_status_ready = "Ready"

abbrev pub cluster_phase_error : String
cluster_phase_error = "Error"

abbrev pub condition_healthy : String
condition_healthy = "Healthy"

abbrev pub condition_membership_healthy : String
condition_membership_healthy = "MembershipHealthy"

abbrev pub condition_slots_covered : String
condition_slots_covered = "SlotsCovered"

abbrev pub condition_slots_balanced : String
condition_slots_balanced = "SlotsBalanced"

abbrev pub condition_replicas_balanced : String
condition_replicas_balanced = "ReplicasBalanced"

abbrev pub condition_cluster_check_passing : String
condition_cluster_check_passing = "ClusterCheckPassing"

pub record RedkeySubstatus : Type 0 where
  pub status : String
  pub upgrading_partition : ℤ

pub record RedisNode : Type 0 where
  pub role : String
  pub ip : String
  pub replication_status : String

pub record RedkeyConfigSpec (T : Types) : Type 0 where
  pub sequence : ℤ
  pub skip_if_superseded : Bool
  pub mode : String
  pub primaries : ℤ
  pub replicas_per_primary : ℤ
  pub ephemeral : Bool
  pub storage : String
  pub storage_class_name : String
  pub image : String
  pub version : String
  pub redis_config : String
  pub resources : Option (ResourceRequirements T)
  pub auth : RedisAuth
  pub labels : Option (GoMap String)
  pub annotations : Option (GoMap String)
  pub delete_pvc : Option Bool
  pub purge_keys_on_rebalance : Option Bool
  pub override : Option (RedkeyOverrideSpec T)
  pub pdb : Pdb T
  pub robin_config : Option RobinConfig

pub record RedkeyConfigStatus (T : Types) : Type 0 where
  pub config_phase : String
  pub status : String
  pub substatus : RedkeySubstatus
  -- `map[string]*RedisNode`, whose pointers may be nil
  pub nodes : GoMap (Option RedisNode)
  pub conditions : List (Condition T)
  pub last_updated_at : Option Time
  pub observed_generation : ℤ

pub record RedkeyConfig (T : Types) : Type 0 where
  pub meta : ObjectMeta T
  pub spec : RedkeyConfigSpec T
  pub status : RedkeyConfigStatus T
