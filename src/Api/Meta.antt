-- ===== src/Api/Meta.antt =====
-- metav1: object metadata, names and conditions, as far as the operator reads and writes them, and
-- ResourceRequirements, Container and the other core/v1 structs whose fields it names.
use redkey_operator.Common.{String, Option, none, List, []}
use redkey_operator.Common.Int.{ℤ, pos}
use redkey_operator.Common.GoMap.{GoMap}
use redkey_operator.Api.Types.{Types, Time, zero_time}

-- types.NamespacedName
pub record NamespacedName : Type 0 where
  pub namespace : String
  pub name : String

pub record ObjectMeta (T : Types) : Type 0 where
  pub name : String
  pub namespace : String
  pub labels : GoMap String
  pub annotations : GoMap String
  pub generation : ℤ
  pub creation_timestamp : Time
  pub owner_references : List T.OwnerReference

-- The metadata that a literal with these four fields has.
abbrev pub object_meta : (T : Types) → String → String → GoMap String → GoMap String → ObjectMeta T
object_meta T name namespace labels annotations = record {
  name = name;
  namespace = namespace;
  labels = labels;
  annotations = annotations;
  generation = pos 0;
  creation_timestamp = zero_time;
  owner_references = [];
}

-- metav1.Condition: `type` is a string, `status` one of the three below.
pub record Condition (T : Types) : Type 0 where
  pub kind : String
  pub status : String
  pub observed_generation : ℤ
  pub last_transition_time : Time
  pub reason : String
  pub message : String

-- The literal `metav1.Condition{Type, Status, Reason, Message}`.
abbrev pub condition : (T : Types) → String → String → String → String → Condition T
condition T kind status reason message = record {
  kind = kind;
  status = status;
  observed_generation = pos 0;
  last_transition_time = zero_time;
  reason = reason;
  message = message;
}

abbrev pub condition_true : String
condition_true = "True"

abbrev pub condition_false : String
condition_false = "False"

abbrev pub condition_unknown : String
condition_unknown = "Unknown"

-- core/v1 ResourceRequirements; `none` is a nil list.
pub record ResourceRequirements (T : Types) : Type 0 where
  pub limits : Option T.ResourceList
  pub requests : Option T.ResourceList
  pub claims : List T.ResourceClaim

abbrev pub no_resources : (T : Types) → ResourceRequirements T
no_resources T = record { limits = none; requests = none; claims = [] }

-- core/v1 EnvVar
pub record EnvVar (T : Types) : Type 0 where
  pub name : String
  pub value : String
  pub value_from : Option T.EnvVarSource

-- core/v1 ContainerPort, without the two fields that the operator never sets
pub record ContainerPort : Type 0 where
  pub name : String
  pub container_port : ℤ
  pub protocol : String

-- core/v1 Container
pub record Container (T : Types) : Type 0 where
  pub name : String
  pub image : String
  pub args : List String
  pub env : List (EnvVar T)
  pub env_from : List T.EnvFromSource
  pub ports : List ContainerPort
  pub resources : ResourceRequirements T
  pub volume_mounts : List T.VolumeMount
  pub security_context : Option T.SecurityContext
  pub rest : T.ContainerRest
