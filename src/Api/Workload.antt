-- ===== src/Api/Workload.antt =====
-- The Kubernetes objects that the operator manages for Robin: ServiceAccount, Role, RoleBinding and
-- Deployment, with the fields that it reads or writes.
use redkey_operator.Common.{String, Option, List}
use redkey_operator.Common.Int.{ℤ}
use redkey_operator.Common.GoMap.{GoMap}
use redkey_operator.Api.Types.{Types}
use redkey_operator.Api.Meta.{ObjectMeta, Container}

pub record ServiceAccount (T : Types) : Type 0 where
  pub meta : ObjectMeta T

-- rbac/v1
pub record PolicyRule : Type 0 where
  pub api_groups : List String
  pub resources : List String
  pub verbs : List String

pub record Role (T : Types) : Type 0 where
  pub meta : ObjectMeta T
  pub rules : List PolicyRule

pub record Subject : Type 0 where
  pub kind : String
  pub name : String
  pub namespace : String

pub record RoleRef : Type 0 where
  pub api_group : String
  pub kind : String
  pub name : String

pub record RoleBinding (T : Types) : Type 0 where
  pub meta : ObjectMeta T
  pub subjects : List Subject
  pub role_ref : RoleRef

-- core/v1 PodSpec: the fields that the operator sets
pub record PodSpec (T : Types) : Type 0 where
  pub service_account_name : String
  pub containers : List (Container T)
  pub node_selector : GoMap String
  pub tolerations : List T.Toleration
  pub affinity : Option T.Affinity
  pub security_context : Option T.PodSecurityContext
  pub image_pull_secrets : List T.LocalObjectReference
  pub priority_class_name : String
  pub topology_spread_constraints : List T.TopologySpreadConstraint
  pub volumes : List T.Volume
  pub rest : T.PodSpecRest

pub record PodTemplateSpec (T : Types) : Type 0 where
  pub labels : GoMap String
  pub annotations : GoMap String
  pub spec : PodSpec T

pub record DeploymentSpec (T : Types) : Type 0 where
  -- a pointer to an int32
  pub replicas : Option ℤ
  -- `selector.matchLabels`
  pub selector : GoMap String
  pub template : PodTemplateSpec T
  pub rest : T.DeploymentSpecRest

pub record Deployment (T : Types) : Type 0 where
  pub meta : ObjectMeta T
  pub spec : DeploymentSpec T
