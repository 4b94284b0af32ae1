-- ===== src/ScaleZero/Cases/RemovesAll/Store.antt =====
-- What the writes of a teardown leave on the server.
use redkey_operator.Common.{false, List, [], ◌∷◌, ◌++◌, ◌≡◌, arith, All}
use redkey_operator.Api.Types.{Types, Time}
use redkey_operator.Api.Meta.{NamespacedName}
use redkey_operator.Api.Config.{RedkeyConfig}
use redkey_operator.Api.Redkey.{Redkey}
use redkey_operator.Kube.Client.{
  Kind, update_status, deployment, role_binding, role, service_account, config,
}
use redkey_operator.Kube.Action.{Env}
use redkey_operator.Kube.Store.{Store, replay}
use redkey_operator.Metrics.Trackers.Operations.{same_key_refl}
use redkey_operator.Robin.Ensure.{robin_key}
use redkey_operator.Config.Cleanup.{config_key}
use redkey_operator.ScaleZero.Teardown.Complete.{deletions}
use redkey_operator.ScaleZero.Cases.RemovesAll.{teardown_writes}

-- Neither Robin's objects nor the configs are there.
abbrev pub Removed : {T : Types} → Redkey T → List (RedkeyConfig T) → Store → Type 0
Removed cluster items store =
    (store deployment (robin_key cluster) ≡ false)
    × (store role_binding (robin_key cluster) ≡ false)
    × (store role (robin_key cluster) ≡ false)
    × (store service_account (robin_key cluster) ≡ false)
    × All (λ c. store config (config_key c) ≡ false) items

module _ {T : Types} (K : Env T) (c : Redkey T) where
  -- What is gone stays gone while configs are deleted and the status is written.
  deletions-gone :
      (items : List (RedkeyConfig T)) (store : Store) (kind : Kind) (key : NamespacedName)
      → store kind key ≡ false
      → replay (deletions K items ++ update_status c ∷ []) store kind key ≡ false
  deletions-gone [] store kind key h = h
  deletions-gone (i ∷ items) store kind key h = deletions-gone items _ kind key (ground (arith, h))

  deletions-removed :
      (items : List (RedkeyConfig T)) (store : Store)
      → All
          (λ i.
            replay (deletions K items ++ update_status c ∷ []) store config (config_key i) ≡ false)
          items
  deletions-removed [] store = tt
  deletions-removed (i ∷ items) store = (
    deletions-gone items _ config (config_key i) (ground (arith, same_key_refl (config_key i))),
    deletions-removed items _,
  )

module _ {T : Types} (K : Env T) where
  pub teardown_writes-Removed :
      (cluster : Redkey T) (items : List (RedkeyConfig T)) (t : Time) (store : Store)
      → Removed cluster items (replay (teardown_writes K cluster items t) store)
  teardown_writes-Removed cluster items t store = (
    deletions-gone K _ items _ deployment _ (ground (arith, same_key_refl (robin_key cluster))),
    deletions-gone K _ items _ role_binding _ (ground (arith, same_key_refl (robin_key cluster))),
    deletions-gone K _ items _ role _ (ground (arith, same_key_refl (robin_key cluster))),
    deletions-gone K _ items _ service_account _
        (ground (arith, same_key_refl (robin_key cluster))),
    deletions-removed K _ items _,
  )
