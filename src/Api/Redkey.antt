-- ===== src/Api/Redkey.antt =====
-- api/v1beta1/redkey_types.go: Redkey, its spec and its status.
use redkey_operator.Common.{String, Bool, Option, none, some, List, ◌==◌, []}
use redkey_operator.Common.Int.{ℤ, ◌+ℤ◌, ◌*ℤ◌, wrap32}
use redkey_operator.Common.GoMap.{GoMap, made}
use redkey_operator.Api.Types.{Types, Time}
use redkey_operator.Api.Meta.{ObjectMeta, NamespacedName, Condition, ResourceRequirements}
use redkey_operator.Api.Override.{RedisAuth, RedkeyOverrideSpec, Pdb, RobinSpec}
use redkey_operator.Api.Config.{RedkeySubstatus, RedisNode, RedkeyConfigSpec}

abbrev pub mode_cluster : String
mode_cluster = "cluster"

abbrev pub mode_standalone : String
mode_standalone = "standalone"

abbrev pub phase_ready : String
phase_ready = "Ready"

abbrev pub phase_configuring : String
phase_configuring = "Configuring"

abbrev pub phase_error : String
phase_error = "Error"

pub record RedkeySpec (T : Types) : Type 0 where
  pub auth : RedisAuth
  pub version : String
  pub mode : String
  pub primaries : ℤ
  pub replicas_per_primary : ℤ
  pub image : String
  pub delete_pvc : Option Bool
  pub backup : Bool
  pub robin : RobinSpec T
  pub skip_if_superseded : Bool
  pub purge_keys_on_rebalance : Option Bool
  pub config : String
  pub resources : Option (ResourceRequirements T)
  pub labels : Option (GoMap String)
  pub annotations : Option (GoMap String)
  pub pdb : Pdb T
  pub override : Option (RedkeyOverrideSpec T)
  pub ephemeral : Bool
  pub storage : String
  pub storage_class_name : String
  pub access_modes : List String

pub record RedkeyStatus (T : Types) : Type 0 where
  pub replicas : ℤ
  pub phase : String
  pub status : String
  pub substatus : RedkeySubstatus
  -- `map[string]*RedisNode`, whose pointers may be nil
  pub nodes : GoMap (Option RedisNode)
  pub conditions : List (Condition T)
  pub last_updated_at : Option Time
  pub observed_generation : ℤ
  pub last_applied_primaries : ℤ
  pub last_applied_replicas_per_primary : ℤ

pub record Redkey (T : Types) : Type 0 where
  pub meta : ObjectMeta T
  pub spec : RedkeySpec T
  pub status : RedkeyStatus T

module _ {T : Types} where
  -- The key that the cluster is stored under.
  abbrev pub own_key : Redkey T → NamespacedName
  own_key cluster = record { namespace = cluster.meta.namespace; name = cluster.meta.name }

  -- `RedkeySpec.NodesNeeded`: int32 arithmetic, then a conversion that keeps the value.
  unfoldable pub nodes_needed : RedkeySpec T → ℤ
  nodes_needed s = wrap32 (s.primaries +ℤ wrap32 (s.primaries *ℤ s.replicas_per_primary))

  -- `RedkeySpec.IsStandalone`
  unfoldable pub is_standalone : RedkeySpec T → Bool
  is_standalone s = s.mode == mode_standalone

  -- `RedkeyConfigSpec.IsStandalone`
  unfoldable pub config_is_standalone : RedkeyConfigSpec T → Bool
  config_is_standalone s = s.mode == mode_standalone

  -- `Redkey.NamespacedName`
  unfoldable pub namespaced_name : Redkey T → NamespacedName
  namespaced_name r = record { namespace = r.meta.namespace; name = r.meta.name }

  -- `Redkey.GetLabels`: it hides the promoted method of ObjectMeta.
  unfoldable pub get_labels : Redkey T → GoMap String
  get_labels r = elim r.spec.labels [ some m ↦ m | none ↦ made [] ]
