-- ===== src/Kube/Stored/Cluster.antt =====
-- A server that keeps what it is sent: the Redkey under one key and the configs that carry its label.
use mathlib.Core.List.{Permᴰ}
use redkey_operator.Common.{String, Bool, true, false, some, List, ◌∷◌, ◌≡◌, ◌==◌, ◌⊎◌, All}
use redkey_operator.Common.GoMap.{lookup}
use redkey_operator.Common.Sort.Edits.{without}
use redkey_operator.Api.Types.{Types}
use redkey_operator.Api.Meta.{NamespacedName}
use redkey_operator.Api.Redkey.{Redkey, RedkeyStatus, own_key}
use redkey_operator.Api.Config.{RedkeyConfig}
use redkey_operator.Kube.Client.{Kube, ok, err, create, delete, config, of_config}
use redkey_operator.Kube.Stored.{Stored}
use redkey_operator.Robin.Merge.{cluster_label}

abbrev pub named : {T : Types} → String → RedkeyConfig T → Bool
named name c = c.meta.name == name

-- Of a config that is created the server keeps what the operator reads of it. It may fill in
-- defaults elsewhere.
pub record KeptConfig {T : Types} (kept sent : RedkeyConfig T) : Type 0 where
  pub name : kept.meta.name ≡ sent.meta.name
  pub namespace : kept.meta.namespace ≡ sent.meta.namespace
  pub annotations : kept.meta.annotations ≡ sent.meta.annotations
  pub sequence : kept.spec.sequence ≡ sent.spec.sequence
  pub config_phase : kept.status.config_phase ≡ sent.status.config_phase

pub record StoringCluster {T : Types} (K : Kube T) (view : K.World → Stored T)
    (key : NamespacedName) : Type 0 where
  pub redkey_read :
      (c : Redkey T) (w : K.World)
      → (view w).redkey ≡ some c
      → ((K.get_redkey key w).0 ≡ ok c) × (view (K.get_redkey key w).1 ≡ view w)
  -- The order of a listing is not fixed.
  pub configs_read :
      (w : K.World)
      → ((items : List (RedkeyConfig T)) × ((K.list_configs key.namespace cluster_label key.name
              w).0
            ≡ ok items)
          × Permᴰ items (view w).configs)
        × (view (K.list_configs key.namespace cluster_label key.name w).1 ≡ view w)
  pub config_created :
      (c : RedkeyConfig T) (w : K.World)
      → c.meta.namespace ≡ key.namespace
      → lookup cluster_label c.meta.labels ≡ some key.name
      → All (λ d. named c.meta.name d ≡ false) (view w).configs
      → ((K.submit (create (of_config c)) w).0 ≡ ok tt)
        × ((kept : RedkeyConfig T) × KeptConfig kept c
            × (view (K.submit (create (of_config c)) w).1
                ≡ record (view w) { configs = kept ∷ (view w).configs }))
  -- Deleted, or not there: then no config has the name.
  pub config_deleted :
      (k : NamespacedName) (w : K.World)
      → k.namespace ≡ key.namespace
      → (((K.submit (delete config k) w).0 ≡ ok tt)
          ⊎ ((e : K.ApiError) × ((K.submit (delete config k) w).0 ≡ err e)
              × (K.is_not_found e ≡ true)))
        × (view (K.submit (delete config k) w).1
            ≡ record (view w) { configs = without (named k.name) (view w).configs })
  -- Nothing but the status is taken over.
  pub status_updated :
      (c old : Redkey T) (w : K.World)
      → (view w).redkey ≡ some old
      → own_key c ≡ key
      → (kept : RedkeyStatus T) × (kept.observed_generation ≡ c.status.observed_generation)
        × ((K.submit_status c w).0 ≡ ok (record old { status = kept }))
        × (view (K.submit_status c w).1
            ≡ record (view w) { redkey = some (record old { status = kept }) })
