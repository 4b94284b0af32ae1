-- ===== src/Config/Create/Snapshot.antt =====
-- What a config that createNewConfig made tells of its cluster.
use redkey_operator.Common.{
  String, Option, none, some, [], ◌∷◌, ◌≡◌, refl, ap, ◌∙◌, sym, subst, ◌==◌, ◌<>◌, if◌then◌else◌,
  arith,
}
use redkey_operator.Common.Int.{ℤ, pos, ◌+ℤ◌, wrap64_exact, IsInt64}
use redkey_operator.Common.GoMap.{GoMap, nil, made, lookup}
use redkey_operator.Common.Decimal.{format_int}
use redkey_operator.Api.Types.{Types}
use redkey_operator.Api.Meta.{ObjectMeta}
use redkey_operator.Api.Config.{RedkeyConfig, RedkeyConfigSpec}
use redkey_operator.Api.Redkey.{Redkey}
use redkey_operator.Kube.Client.{ok}
use redkey_operator.Kube.Laws.{OwnerLaw}
use redkey_operator.Kube.Action.{Env}
use redkey_operator.Robin.Merge.{deref_map, merge_meta}
use redkey_operator.Robin.Merge.Precedence.{lookup-merge_meta}
use redkey_operator.Config.Create.{next_sequence, config_spec, config_meta}
use redkey_operator.Config.Create.Writes.{IsSuccessor}

-- The number of the first config is 1, and every further one counts on from the highest.
abbrev pub number_after : {T : Types} → Option (RedkeyConfig T) → ℤ
number_after none = pos 1
number_after (some highest) = highest.spec.sequence +ℤ pos 1

-- The entry that a user asks for under a key.
abbrev pub asked : Option (GoMap String) → String → Option String
asked none key = none
asked (some wanted) key = lookup key wanted

-- The settings of a cluster, its sequence number apart.
pub record SameSettings {T : Types} (cluster : Redkey T) (spec : RedkeyConfigSpec T) : Type 0 where
  pub skip_if_superseded : spec.skip_if_superseded ≡ cluster.spec.skip_if_superseded
  pub mode : spec.mode ≡ cluster.spec.mode
  pub primaries : spec.primaries ≡ cluster.spec.primaries
  pub replicas : spec.replicas_per_primary ≡ cluster.spec.replicas_per_primary
  pub ephemeral : spec.ephemeral ≡ cluster.spec.ephemeral
  pub storage : spec.storage ≡ cluster.spec.storage
  pub storage_class_name : spec.storage_class_name ≡ cluster.spec.storage_class_name
  pub image : spec.image ≡ cluster.spec.image
  pub version : spec.version ≡ cluster.spec.version
  pub redis_config : spec.redis_config ≡ cluster.spec.config
  pub resources : spec.resources ≡ cluster.spec.resources
  pub auth : spec.auth ≡ cluster.spec.auth
  pub labels : spec.labels ≡ cluster.spec.labels
  pub annotations : spec.annotations ≡ cluster.spec.annotations
  pub delete_pvc : spec.delete_pvc ≡ cluster.spec.delete_pvc
  pub purge_keys : spec.purge_keys_on_rebalance ≡ cluster.spec.purge_keys_on_rebalance
  pub override : spec.override ≡ cluster.spec.override
  pub pdb : spec.pdb ≡ cluster.spec.pdb
  pub robin_config : spec.robin_config ≡ cluster.spec.robin.config

-- A config with the cluster's settings and the next number, which names its cluster and the
-- generation that it was made for, and is controlled by the cluster.
pub record IsSnapshot {T : Types} (K : Env T) (cluster : Redkey T)
    (highest : Option (RedkeyConfig T)) (c : RedkeyConfig T) : Type 0 where
  pub sequence : c.spec.sequence ≡ number_after highest
  pub settings : SameSettings cluster c.spec
  pub name : c.meta.name ≡ cluster.meta.name <> "-" <> format_int (number_after highest)
  pub namespace : c.meta.namespace ≡ cluster.meta.namespace
  pub labels :
      (key : String)
      → lookup key c.meta.labels ≡ (
          if key == "redkey.inditex.dev/cluster"
          then some cluster.meta.name
          else asked cluster.spec.labels key)
  pub annotations :
      (key : String)
      → lookup key c.meta.annotations ≡ (
          if key == "redkey.inditex.dev/cluster-generation"
          then some (format_int cluster.meta.generation)
          else asked cluster.spec.annotations key)
  pub owned : (m : ObjectMeta T) × (K.set_controller_reference cluster.meta m ≡ ok c.meta)

lookup-merge_one :
    (wanted : Option (GoMap String)) (own value key : String)
    → lookup key (merge_meta (deref_map wanted) nil (made ((own, value) ∷ [])))
      ≡ (if key == own then some value else asked wanted key)
unfolding deref_map
lookup-merge_one none own value key =
    lookup-merge_meta nil nil (made ((own, value) ∷ [])) key ∙ ground arith
lookup-merge_one (some m) own value key =
    lookup-merge_meta m nil (made ((own, value) ∷ [])) key ∙ ground arith

module _ {T : Types} where
  config_spec-SameSettings :
      (cluster : Redkey T) (seq : ℤ) → SameSettings cluster (config_spec cluster seq)
  unfolding config_spec
  config_spec-SameSettings cluster seq = record {
    skip_if_superseded = refl;
    mode = refl;
    primaries = refl;
    replicas = refl;
    ephemeral = refl;
    storage = refl;
    storage_class_name = refl;
    image = refl;
    version = refl;
    redis_config = refl;
    resources = refl;
    auth = refl;
    labels = refl;
    annotations = refl;
    delete_pvc = refl;
    purge_keys = refl;
    override = refl;
    pdb = refl;
    robin_config = refl;
  }

  next_sequence-number_after :
      (highest : Option (RedkeyConfig T))
      → IsInt64 (number_after highest)
      → next_sequence highest ≡ number_after highest
  unfolding next_sequence
  next_sequence-number_after none fits = refl
  next_sequence-number_after (some highest) fits = wrap64_exact _ fits

  pub IsSuccessor-IsSnapshot :
      (K : Env T) (law : OwnerLaw K.kube) (cluster : Redkey T) (highest : Option (RedkeyConfig T))
      (c : RedkeyConfig T)
      → IsInt64 (number_after highest)
      → IsSuccessor K cluster highest c
      → IsSnapshot K cluster highest c
  unfolding config_spec config_meta
  IsSuccessor-IsSnapshot K law cluster highest c fits made_for =
      let (name, namespace, labels, annotations) = law.keeps _ _ _ made_for.owned in
      let number = next_sequence-number_after highest fits in
      record {
        sequence = ap (λ x. x.sequence) made_for.sequence ∙ number;
        settings =
            subst (SameSettings cluster) (sym made_for.sequence)
              (config_spec-SameSettings cluster _);
        name = name ∙ ap (λ x. cluster.meta.name <> "-" <> format_int x) number;
        namespace = namespace;
        labels = λ key. ap (lookup key) labels ∙ lookup-merge_one cluster.spec.labels _ _ key;
        annotations =
            λ key. ap (lookup key) annotations ∙ lookup-merge_one cluster.spec.annotations _ _ key;
        owned = (config_meta cluster (next_sequence highest), made_for.owned);
      }
