-- ===== src/Tests/Interplay.antt =====
-- The operator and the others at work on a server that keeps what it is sent.
use redkey_operator.Common.{Option, none, some, [], ◌∷◌, ◌≡◌, refl, arith}
use redkey_operator.Common.Int.{pos}
use redkey_operator.Common.GoMap.{copy, insert}
use redkey_operator.Api.Redkey.{Redkey}
use redkey_operator.Kube.Client.{ok}
use redkey_operator.Kube.Action.{Env, State}
use redkey_operator.Kube.Stored.{Stored}
use redkey_operator.Robin.Merge.{merge_meta}
use redkey_operator.Robin.Deployment.{build_desired_robin_deployment}
use redkey_operator.Robin.Ensure.{rbac_meta, robin_key}
use redkey_operator.Config.Create.{config_meta}
use redkey_operator.Reconcile.{reconcile}
use redkey_operator.Reconcile.Settles.{Keeping, Settled}
use redkey_operator.Reconcile.Interplay.{
  Allowed, Tidy, Reach, start, next, edited, meddled, Reach-Tidy, Reach-settles,
}
use redkey_operator.Tests.Shelf.{
  shelf_env, shelf-Storing, shelf-StoringCluster, shelf-RetryLaw, shelf-OwnerLaw,
  shelf-EqualityLaws,
}
use redkey_operator.Tests.Server.{types}
use redkey_operator.Tests.Objects.{cluster, key}

abbrev K : Env types
K = shelf_env cluster

keeping : (c : Redkey types) → Allowed key c → Keeping K (λ w. w.0) c
keeping c allowed = record {
  robin = shelf-Storing cluster (robin_key c);
  objects =
      shelf-StoringCluster cluster (record { namespace = c.meta.namespace; name = c.meta.name });
  owner = shelf-OwnerLaw cluster;
  equal = shelf-EqualityLaws cluster;
  retry = shelf-RetryLaw cluster;
  owned = record {
    rbac = record (rbac_meta c) { owner_references = tt ∷ [] };
    rbac_owned = refl;
    deployment = record (build_desired_robin_deployment c).meta { owner_references = tt ∷ [] };
    deployment_owned = refl;
  };
  config_owned = λ seq. (record (config_meta c seq) { owner_references = tt ∷ [] }, refl);
  unmanaged = allowed.unmanaged;
}

-- The user changes the spec, and somebody makes a ServiceAccount under Robin's name.
abbrev renewed : Redkey types
renewed = record cluster { meta = record cluster.meta { generation = pos 3 } }

allowed : Allowed key cluster
unfolding build_desired_robin_deployment merge_meta copy insert
allowed = record { own = refl; some_primaries = refl; unmanaged = refl }

allowed_again : Allowed key renewed
unfolding build_desired_robin_deployment merge_meta copy insert
allowed_again = record { own = refl; some_primaries = refl; unmanaged = refl }

abbrev empty : Redkey types → Stored types
empty c = record {
  redkey = some c;
  service_account = none;
  role = none;
  role_binding = none;
  deployment = none;
  configs = [];
}

abbrev crowded : Stored types
crowded = record (empty renewed) { service_account = some (record { meta = cluster.meta }) }

reached : Reach K (λ w. w.0) key (pos 30) 0 crowded
reached =
    next
      (next (start {v = empty cluster} cluster refl allowed refl)
        (edited {v' = empty renewed} renewed allowed_again refl))
      (meddled refl refl)

abbrev started : State K
started = record {
  world = (crowded, 5);
  registry = λ v ns name third. none;
  active = λ k. none;
  last_phase = λ k. none;
  sent = [];
}

Reach-Tidy_example : Tidy key 0 crowded
Reach-Tidy_example = Reach-Tidy key (pos 30) keeping reached (omega arith)

Reach-settles_example :
    (c : Redkey types) × (allowed : Allowed key c) × (s' : State K) × (◌≡◌
      {A = Option (Redkey types)}
      (some renewed)
      (some c))
    × ((reconcile K (pos 30) key).run started ≡ (ok (some (pos 30)), s'))
    × Settled c (keeping c allowed) s'.world.0
    × Reach K (λ w. w.0) key (pos 30) 1 s'.world.0
Reach-settles_example = Reach-settles key (pos 30) keeping 0 started reached (omega arith)
