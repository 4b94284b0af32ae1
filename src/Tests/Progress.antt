-- ===== src/Tests/Progress.antt =====
-- The theorems on what a reconcile brings about at concrete inputs.
use redkey_operator.Common.{
  false, String, ℕ, suc, true, ◌&&◌, none, some, List, [], ◌∷◌, ◌++◌, ◌≡◌, refl, if◌then◌else◌,
  last?,
}
use redkey_operator.Common.Int.{pos}
use redkey_operator.Common.Sort.{sort_slice}
use redkey_operator.Api.Config.{RedkeyConfig}
use redkey_operator.Api.Redkey.{Redkey}
use redkey_operator.Kube.Client.{ok, Write}
use redkey_operator.Kube.Collectors.{Collectors, CounterVec}
use redkey_operator.Kube.Laws.{same_counter, same_labels}
use redkey_operator.Kube.Action.{Env, State}
use redkey_operator.Kube.Store.{Store, replay}
use redkey_operator.Config.Sequence.{before}
use redkey_operator.Config.Create.{config_spec}
use redkey_operator.ScaleZero.Cases.RemovesAll.Store.{Removed}
use redkey_operator.Reconcile.{reconcile}
use redkey_operator.Reconcile.Granted.{reconcile-succeeds}
use redkey_operator.Reconcile.Provides.{Truthful, Provided, reconcile-provides}
use redkey_operator.Reconcile.ScaleDown.{reconcile-removes_all}
use redkey_operator.Tests.Server.{
  types, server, env, server-RetryLaw, server-OwnerLaw, server-Willing,
}
use redkey_operator.Tests.Objects.{cluster, config_in, key}

abbrev listing : List (RedkeyConfig types)
listing = config_in (pos 2) "Applied" ∷ []

abbrev K : Env types
K = env (ok cluster) listing

abbrev started : State K
started = record {
  world = 5;
  registry = λ v ns name third. none;
  active = λ k. none;
  last_phase = λ k. none;
  sent = [];
}

reconcile-succeeds_example :
    (s' : State K) × ((reconcile K (pos 30) key).run started ≡ (ok (some (pos 30)), s'))
reconcile-succeeds_example =
    reconcile-succeeds (server-Willing cluster listing) (server-RetryLaw (ok cluster) listing)
      (pos 30) key started

-- A server that has none of Robin's objects.
abbrev nothing : Store
nothing = λ kind k. false

K-Truthful : Truthful K cluster nothing
K-Truthful = record {
  service_account_there = λ w o e. absurd (cc);
  role_there = λ w o e. absurd (cc);
  role_binding_there = λ w o e. absurd (cc);
  deployment_there = λ w o e. absurd (cc);
}

reconcile-provides_example :
    (s' : State K) × (ws : List (Write types)) × ((reconcile K (pos 30) key).run started
      ≡ (ok (some (pos 30)), s'))
    × (s'.sent ≡ [] ++ ws)
    × Provided cluster (replay ws nothing)
reconcile-provides_example =
    reconcile-provides (server-Willing cluster listing) (server-RetryLaw (ok cluster) listing)
      (server-OwnerLaw (ok cluster) listing) cluster nothing K-Truthful (pos 30) key started
      (λ w. refl) refl

-- The cluster, scaled to zero, and its config, applied.
abbrev idle_cluster : Redkey types
idle_cluster = record cluster { spec = record cluster.spec { primaries = pos 0 } }

abbrev idle_config : RedkeyConfig types
idle_config = record (config_in (pos 3) "Applied") {
  spec = record (config_spec cluster (pos 3)) { primaries = pos 0 };
}

abbrev idle_listing : List (RedkeyConfig types)
idle_listing = idle_config ∷ config_in (pos 2) "Applied" ∷ []

abbrev Zero : Env types
Zero = env (ok idle_cluster) idle_listing

abbrev at_zero : State Zero
at_zero = record {
  world = 5;
  registry = λ v ns name third. none;
  active = λ k. none;
  last_phase = λ k. none;
  sent = [];
}

newest_idle : last? (sort_slice before idle_listing) ≡ some idle_config
unfolding sort_slice config_spec
newest_idle = refl

abbrev full : Store
full = λ kind k. true

reconcile-removes_all_example :
    (s' : State Zero) × (ws : List (Write types)) × ((reconcile Zero (pos 30) key).run at_zero
      ≡ (ok (some (pos 30)), s'))
    × (s'.sent ≡ [] ++ ws)
    × Removed idle_cluster idle_listing (replay ws full)
reconcile-removes_all_example =
    reconcile-removes_all (server-Willing idle_cluster idle_listing)
      (server-RetryLaw (ok idle_cluster) idle_listing) idle_cluster idle_listing (λ w. refl)
      idle_config newest_idle refl (pos 30) key at_zero full (λ w. refl) refl

-- Counters only.
abbrev counters : Collectors
counters = record {
  Registry = CounterVec → List String → ℕ;
  set_gauge = λ v ns name third x r. r;
  delete_partial_match = λ v ns name r. r;
  inc = λ v labels r u labels'.
      if same_counter u v && same_labels labels' labels then suc (r u labels') else r u labels';
  observe = λ v labels d r. r;
  gauge = λ u ns name third r. none;
  counter = λ u labels r. r u labels;
  samples = λ v labels r. 0;
}

abbrev Counting : Env types
Counting = record { kube = server (ok cluster) []; collectors = counters }

abbrev uncounted : State Counting
uncounted = record {
  world = 5;
  registry = λ v labels. 0;
  active = λ k. none;
  last_phase = λ k. none;
  sent = [];
}
