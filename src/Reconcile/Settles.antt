-- ===== src/Reconcile/Settles.antt =====
-- Reconciles of a cluster with primaries on a server that keeps what it is sent, while nobody else is
-- at work: what is assumed, and the states after which nothing is left to do.
pub mod Stages
pub mod First
pub mod Again
use redkey_operator.Common.{String, Option, none, some, List, [], ◌∷◌, ◌≡◌, last?}
use redkey_operator.Common.Int.{ℤ}
use redkey_operator.Common.GoMap.{lookup}
use redkey_operator.Api.Types.{Types}
use redkey_operator.Api.Redkey.{Redkey, RedkeyStatus, own_key}
use redkey_operator.Api.Meta.{ObjectMeta}
use redkey_operator.Kube.Client.{ok}
use redkey_operator.Kube.Action.{Env}
use redkey_operator.Kube.Laws.{EqualityLaws, OwnerLaw, RetryLaw}
use redkey_operator.Kube.Stored.{Stored, Storing}
use redkey_operator.Kube.Stored.Cluster.{StoringCluster}
use redkey_operator.Robin.Annotations.{deployment_revision_annotation}
use redkey_operator.Robin.Ensure.{robin_key}
use redkey_operator.Robin.Ensure.Placed.{Owned, Placed}
use redkey_operator.Config.Create.{config_meta}
use redkey_operator.Config.Orderly.{Orderly, listed}
use redkey_operator.Config.Orderly.Numbered.{Numbered}
use redkey_operator.Config.Orderly.Cleans.{Clean}

-- The server and the helper packages, as they are documented.
pub record Keeping {T : Types} (K : Env T) (view : K.World → Stored T) (cluster : Redkey T)
    : Type 1 where
  pub robin : Storing K.kube view (robin_key cluster)
  pub objects : StoringCluster K.kube view (own_key cluster)
  pub owner : OwnerLaw K.kube
  pub equal : EqualityLaws K.kube
  pub retry : RetryLaw K.kube
  pub owned : Owned K cluster
  pub config_owned :
      (seq : ℤ)
      → (m : ObjectMeta T) × (K.set_controller_reference cluster.meta (config_meta cluster seq)
          ≡ ok m)
  -- The user asks for no annotation under the name of the one that Kubernetes writes.
  pub unmanaged : lookup deployment_revision_annotation owned.deployment.annotations ≡ none

module _ {T : Types} {K : Env T} {view : K.World → Stored T} (cluster : Redkey T)
    (keeping : Keeping K view cluster) where
  -- What the first reconcile finds: the cluster, and configs that createNewConfig has numbered. Of
  -- Robin's objects nothing is asked.
  pub record Ready (v : Stored T) : Type 0 where
    pub redkey : v.redkey ≡ some cluster
    pub numbered : Numbered cluster v.configs

  -- Robin's objects are as the cluster asks for, its status names its generation, there is a config,
  -- and no config is superseded.
  pub record Settled (v : Stored T) : Type 0 where
    pub status : RedkeyStatus T
    pub observed : status.observed_generation ≡ cluster.meta.generation
    pub redkey : v.redkey ≡ some (record cluster { status = status })
    pub placed : Placed K cluster keeping.owned v
    pub orderly : Orderly cluster.meta.namespace v.configs
    pub clean : Clean (listed v)
