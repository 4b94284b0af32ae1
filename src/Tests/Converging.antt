-- ===== src/Tests/Converging.antt =====
-- Reconciles in a row on a server that keeps what it is sent.
use redkey_operator.Common.{none, some, List, [], ◌∷◌, ◌++◌, ◌≡◌, refl, All, length, arith}
use redkey_operator.Common.Int.{pos, ◌+ℤ◌}
use redkey_operator.Common.GoMap.{copy, insert}
use redkey_operator.Api.Config.{RedkeyConfig}
use redkey_operator.Api.Redkey.{Redkey, own_key}
use redkey_operator.Kube.Client.{ok, Write}
use redkey_operator.Kube.Action.{Env, State}
use redkey_operator.Kube.Stored.{Stored}
use redkey_operator.Robin.Merge.{merge_meta}
use redkey_operator.Robin.Deployment.{build_desired_robin_deployment}
use redkey_operator.Robin.Ensure.{rbac_meta, robin_key}
use redkey_operator.Config.Create.{config_meta, config_spec}
use redkey_operator.Config.Orderly.Creates.{Succession}
use redkey_operator.Config.Orderly.Numbered.{Numbered}
use redkey_operator.Reconcile.{reconcile}
use redkey_operator.Reconcile.Settles.{Keeping, Settled}
use redkey_operator.Reconcile.Converges.{
  reconciles, WritesStatus, reconcile-settles, reconcile-converges,
}
use redkey_operator.Tests.Shelf.{
  shelf_env, shelf-Storing, shelf-StoringCluster, shelf-RetryLaw, shelf-OwnerLaw,
  shelf-EqualityLaws,
}
use redkey_operator.Tests.Server.{types}
use redkey_operator.Tests.Objects.{cluster, config_in}

-- The cluster with a newer spec than its configs, of which the older one is superseded.
abbrev renewed : Redkey types
renewed = record cluster { meta = record cluster.meta { generation = pos 3 } }

abbrev configs : List (RedkeyConfig types)
configs = config_in (pos 3) "Applied" ∷ config_in (pos 2) "Applied" ∷ []

abbrev K : Env types
K = shelf_env renewed

-- None of Robin's objects is there.
abbrev bare : Stored types
bare = record {
  redkey = some renewed;
  service_account = none;
  role = none;
  role_binding = none;
  deployment = none;
  configs = configs;
}

keeping : Keeping K (λ w. w.0) renewed
unfolding rbac_meta build_desired_robin_deployment merge_meta copy insert
keeping = record {
  robin = shelf-Storing renewed (robin_key renewed);
  objects = shelf-StoringCluster renewed (own_key renewed);
  owner = shelf-OwnerLaw renewed;
  equal = shelf-EqualityLaws renewed;
  retry = shelf-RetryLaw renewed;
  owned = record {
    rbac = record (rbac_meta renewed) { owner_references = tt ∷ [] };
    rbac_owned = refl;
    deployment = record (build_desired_robin_deployment renewed).meta {
      owner_references = tt ∷ [];
    };
    deployment_owned = refl;
  };
  config_owned = λ seq. (record (config_meta renewed seq) { owner_references = tt ∷ [] }, refl);
  unmanaged = refl;
}

numbered : Numbered renewed configs
unfolding config_meta config_spec ◌+ℤ◌
numbered = record {
  sequences = ((refl, tt), (tt, tt));
  names = (refl, (refl, tt));
  namespaces = (refl, (refl, tt));
  in_range = (omega arith, (omega arith, tt));
}

abbrev started : State K
started = record {
  world = (bare, 5);
  registry = λ v ns name third. none;
  active = λ k. none;
  last_phase = λ k. none;
  sent = [];
}

reconcile-converges_example :
    (s1 : State K) × (s2 : State K) × (ws : List (Write types)) × ((reconcile K
          (pos 30)
          (own_key renewed)).run
        started
      ≡ (ok (some (pos 30)), s1))
    × ((reconciles K (pos 30) (own_key renewed) 2).run s1 ≡ (ok tt, s2))
    × (s2.sent ≡ s1.sent ++ ws)
    × (length ws ≡ 2)
    × All (WritesStatus renewed) ws
reconcile-converges_example =
    reconcile-converges renewed keeping (pos 30) refl started 2
      (record { redkey = refl; numbered = numbered })

reconcile-settles_example :
    (s' : State K) × ((reconcile K (pos 30) (own_key renewed)).run started
      ≡ (ok (some (pos 30)), s'))
    × Settled renewed keeping s'.world.0
    × Succession renewed configs s'.world.0.configs
reconcile-settles_example =
    reconcile-settles renewed keeping (pos 30) refl started
      (record { redkey = refl; numbered = numbered })
