-- ===== src/Config/Create.antt =====
-- redkey_config.go: createNewConfig.
pub mod Writes
pub mod Snapshot
pub mod Succeeds
use redkey_operator.Common.{String, Bool, Option, none, some, List, [], ◌∷◌, ◌<>◌, if◌then◌else◌}
use redkey_operator.Common.Int.{ℤ, pos, ◌+ℤ◌, wrap64}
use redkey_operator.Common.GoMap.{nil, made}
use redkey_operator.Common.Decimal.{format_int}
use redkey_operator.Api.Types.{Types}
use redkey_operator.Api.Meta.{ObjectMeta, object_meta}
use redkey_operator.Api.Config.{RedkeyConfig, RedkeyConfigSpec, RedkeyConfigStatus}
use redkey_operator.Api.Redkey.{Redkey}
use redkey_operator.Kube.Client.{Result, Error, ok, err, create, of_config}
use redkey_operator.Kube.Collectors.{redkey_config_creations}
use redkey_operator.Kube.Action.{
  Env, Action, ◌>>=◌, ◌>>◌, pure, fail, attempt, lift, send, emit, already_exists,
}
use redkey_operator.Robin.Merge.{deref_map, merge_meta, cluster_label}
use redkey_operator.Config.Sequence.{generation_annotation}

module _ {T : Types} where
  -- `highestSeq.Spec.Sequence + 1`, an int of 64 bits
  unfoldable pub next_sequence : Option (RedkeyConfig T) → ℤ
  next_sequence none = pos 1
  next_sequence (some highest) = wrap64 (highest.spec.sequence +ℤ pos 1)

  unfoldable pub config_spec : Redkey T → ℤ → RedkeyConfigSpec T
  config_spec cluster seq = record {
    sequence = seq;
    skip_if_superseded = cluster.spec.skip_if_superseded;
    mode = cluster.spec.mode;
    primaries = cluster.spec.primaries;
    replicas_per_primary = cluster.spec.replicas_per_primary;
    ephemeral = cluster.spec.ephemeral;
    storage = cluster.spec.storage;
    storage_class_name = cluster.spec.storage_class_name;
    image = cluster.spec.image;
    version = cluster.spec.version;
    redis_config = cluster.spec.config;
    resources = cluster.spec.resources;
    auth = cluster.spec.auth;
    labels = cluster.spec.labels;
    annotations = cluster.spec.annotations;
    delete_pvc = cluster.spec.delete_pvc;
    purge_keys_on_rebalance = cluster.spec.purge_keys_on_rebalance;
    override = cluster.spec.override;
    pdb = cluster.spec.pdb;
    robin_config = cluster.spec.robin.config;
  }

  -- The metadata of the new config, before its owner reference.
  unfoldable pub config_meta : Redkey T → ℤ → ObjectMeta T
  unfolding deref_map merge_meta format_int
  config_meta cluster seq =
      object_meta T (cluster.meta.name <> "-" <> format_int seq) cluster.meta.namespace
        (merge_meta (deref_map cluster.spec.labels) nil
          (made ((cluster_label, cluster.meta.name) ∷ [])))
        (merge_meta (deref_map cluster.spec.annotations) nil
          (made ((generation_annotation, format_int cluster.meta.generation) ∷ [])))

  -- The status of an object that has none yet.
  abbrev pub empty_status : RedkeyConfigStatus T
  empty_status = record {
    config_phase = "";
    status = "";
    substatus = record { status = ""; upgrading_partition = pos 0 };
    nodes = nil;
    conditions = [];
    last_updated_at = none;
    observed_generation = pos 0;
  }

  unfoldable pub creation_reason : Option (RedkeyConfig T) → String
  creation_reason none = "initial"
  creation_reason (some _) = "generation_change"

module _ {T : Types} (K : Env T) where
  -- The answer to the `Create`: that the config is there already is no failure.
  unfoldable pub after_create :
      Option (RedkeyConfig T) → Result (Error K.ApiError) (Unit {0}) → Action K (Unit {0})
  unfolding creation_reason
  after_create highest (ok _) = emit (K.inc redkey_config_creations (creation_reason highest ∷ []))
  after_create highest (err e) = if already_exists K e then pure tt else fail e

  unfoldable pub create_new_config : Redkey T → Option (RedkeyConfig T) → Action K (Unit {0})
  unfolding next_sequence config_spec config_meta after_create
  create_new_config cluster highest = do
    let seq = next_sequence highest
    meta ← lift (K.set_controller_reference cluster.meta (config_meta cluster seq))
    created ← attempt (
        send (
          create (
            of_config
              (record { meta = meta; spec = config_spec cluster seq; status = empty_status }))))
    after_create highest created
