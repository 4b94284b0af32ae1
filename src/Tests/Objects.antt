-- ===== src/Tests/Objects.antt =====
-- A cluster and its configs, for the examples.
use redkey_operator.Common.{String, false, none, some, [], ◌∷◌}
use redkey_operator.Common.Int.{ℤ, pos}
use redkey_operator.Common.GoMap.{nil, made}
use redkey_operator.Api.Meta.{
  Container, EnvVar, no_resources, object_meta, condition, NamespacedName,
}
use redkey_operator.Api.Override.{PartialPodTemplateSpec}
use redkey_operator.Api.Redkey.{Redkey, RedkeyStatus}
use redkey_operator.Api.Config.{RedkeyConfig}
use redkey_operator.Config.Create.{config_spec, config_meta, empty_status}
use redkey_operator.Tests.Server.{types}

abbrev pub log_level : String → EnvVar types
log_level value = record { name = "LOG_LEVEL"; value = value; value_from = none }

-- A container that tries to give Robin another cluster's name.
abbrev pub intruder : Container types
intruder = record {
  name = "robin";
  image = "";
  args = [];
  env =
      record { name = "CLUSTER_NAME"; value = "other"; value_from = none } ∷ log_level "debug" ∷ [];
  env_from = [];
  ports = [];
  resources = no_resources types;
  volume_mounts = [];
  security_context = none;
  rest = tt;
}

abbrev pub template : PartialPodTemplateSpec types
template = record {
  metadata =
      object_meta types "" "" (made (("redkey.inditex.dev/cluster", "other") ∷ ("team", "b") ∷ []))
        nil;
  spec = record {
    containers = intruder ∷ [];
    init_containers = [];
    ephemeral_containers = [];
    restart_policy = "";
    termination_grace_period_seconds = none;
    dns_policy = "";
    node_selector = nil;
    service_account_name = "";
    security_context = none;
    image_pull_secrets = [];
    affinity = none;
    tolerations = [];
    priority_class_name = "";
    topology_spread_constraints = [];
    volumes = [];
  };
}

abbrev pub status : RedkeyStatus types
status = record {
  replicas = pos 3;
  phase = "Configuring";
  status = "Upgrading";
  substatus = record { status = ""; upgrading_partition = pos 0 };
  nodes = nil;
  conditions = condition types "Error" "True" "StatusAggregated" "" ∷ [];
  last_updated_at = none;
  observed_generation = pos 1;
  last_applied_primaries = pos 3;
  last_applied_replicas_per_primary = pos 1;
}

abbrev pub cluster : Redkey types
cluster = record {
  meta = record {
    name = "cache";
    namespace = "shop";
    labels = nil;
    annotations = nil;
    generation = pos 2;
    creation_timestamp = pos 1;
    owner_references = [];
  };
  spec = record {
    auth = record { secret_name = "" };
    version = "8.0";
    mode = "cluster";
    primaries = pos 3;
    replicas_per_primary = pos 1;
    image = "redis";
    delete_pvc = none;
    backup = false;
    robin = record { image = "robin:1"; resources = none; template = some template; config = none };
    skip_if_superseded = false;
    purge_keys_on_rebalance = none;
    config = "";
    resources = none;
    labels = some (made (("team", "a") ∷ []));
    annotations = some (made (("redkey.inditex.dev/cluster-generation", "9") ∷ []));
    pdb = record { enabled = false; pdb_size_unavailable = tt; pdb_size_available = tt };
    override = none;
    ephemeral = false;
    storage = "1Gi";
    storage_class_name = "";
    access_modes = [];
  };
  status = status;
}

-- The config of a sequence number, in a phase.
abbrev pub config_in : ℤ → String → RedkeyConfig types
config_in seq phase = record {
  meta = record (config_meta cluster seq) { owner_references = tt ∷ [] };
  spec = config_spec cluster seq;
  status = record empty_status { config_phase = phase; status = "Ready" };
}

abbrev pub key : NamespacedName
key = record { namespace = "shop"; name = "cache" }
