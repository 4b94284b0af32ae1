-- ===== src/Tests/Steady.antt =====
-- The theorems on a server that has Robin's objects at concrete inputs.
use redkey_operator.Common.{true, false, none, some, [], ◌∷◌, ◌++◌, ◌≡◌, refl, last?}
use redkey_operator.Common.Int.{pos, eqb_ℤ}
use redkey_operator.Common.GoMap.{insert}
use redkey_operator.Common.Sort.{sort_slice}
use redkey_operator.Api.Types.{Time}
use redkey_operator.Api.Config.{RedkeyConfig}
use redkey_operator.Api.Redkey.{Redkey, own_key}
use redkey_operator.Kube.Client.{create, of_config, ok, update_status}
use redkey_operator.Kube.Action.{Env, State}
use redkey_operator.Robin.Annotations.{robin_deployment_needs_update}
use redkey_operator.Robin.Deployment.{build_desired_robin_deployment}
use redkey_operator.Robin.Ensure.{rbac_meta, desired_role_ref, role_refs_differ, metadata_differs}
use redkey_operator.Robin.Ensure.InPlace.{InPlace}
use redkey_operator.Config.Sequence.{
  before, needs_new_config, select_active_config, config_generation,
}
use redkey_operator.Config.Create.Writes.{IsSuccessor}
use redkey_operator.Config.Create.{config_spec, config_meta}
use redkey_operator.Reconcile.{reconcile}
use redkey_operator.Reconcile.Request.{reconcile-requests_zero}
use redkey_operator.Reconcile.Steady.{refreshed, reconcile-steady}
use redkey_operator.Tests.Holding.{holding_env, holding-RetryLaw, holding-Willing, holding-InPlace}
use redkey_operator.Tests.Server.{types}
use redkey_operator.Tests.Objects.{cluster, config_in, key}

abbrev current : RedkeyConfig types
current = config_in (pos 2) "Applied"

abbrev K : Env types
K = holding_env cluster (current ∷ [])

in_place : InPlace K cluster
unfolding metadata_differs role_refs_differ robin_deployment_needs_update rbac_meta
    build_desired_robin_deployment desired_role_ref
in_place = holding-InPlace cluster (current ∷ []) refl refl refl

sorted : sort_slice before (current ∷ []) ≡ current ∷ []
unfolding sort_slice
sorted = refl

covered : needs_new_config cluster (last? (current ∷ [])) ≡ false
unfolding needs_new_config config_generation config_meta insert
covered = refl

chosen : select_active_config (current ∷ []) ≡ some current
unfolding select_active_config
chosen = refl

abbrev started : State K
started = record {
  world = 5;
  registry = λ v ns name third. none;
  active = λ k. none;
  last_phase = λ k. none;
  sent = [];
}

reconcile-steady_example :
    (s' : State K) × (t : Time) × ((reconcile K (pos 30) (own_key cluster)).run started
      ≡ (ok (some (pos 30)), s'))
    × (s'.sent ≡ [] ++ update_status (refreshed K cluster current t) ∷ [])
reconcile-steady_example =
    reconcile-steady (holding-Willing cluster (current ∷ []))
      (holding-RetryLaw cluster (current ∷ [])) cluster (current ∷ []) current [] current
      (λ w. refl) sorted covered tt chosen (λ w. refl) in_place (pos 30) started refl

-- The cluster was scaled to zero, and its newest config does not say so yet.
abbrev idle : Redkey types
idle = record cluster { spec = record cluster.spec { primaries = pos 0 } }

abbrev Idle : Env types
Idle = holding_env idle (current ∷ [])

idle-InPlace : InPlace Idle idle
unfolding metadata_differs role_refs_differ robin_deployment_needs_update rbac_meta
    build_desired_robin_deployment desired_role_ref
idle-InPlace = holding-InPlace idle (current ∷ []) refl refl refl

newest : last? (sort_slice before (current ∷ [])) ≡ some current
unfolding sort_slice
newest = refl

still : eqb_ℤ current.spec.primaries (pos 0) ≡ false
unfolding config_spec
still = refl

abbrev idle_started : State Idle
idle_started = record {
  world = 5;
  registry = λ v ns name third. none;
  active = λ k. none;
  last_phase = λ k. none;
  sent = [];
}

reconcile-requests_zero_example :
    (s' : State Idle) × (c : RedkeyConfig types) × ((reconcile Idle (pos 30) key).run idle_started
      ≡ (ok (some (pos 30)), s'))
    × IsSuccessor Idle idle (some current) c
    × (eqb_ℤ c.spec.primaries (pos 0) ≡ true)
    × (s'.sent ≡ [] ++ create (of_config c) ∷ [])
reconcile-requests_zero_example =
    reconcile-requests_zero (holding-Willing idle (current ∷ [])) idle idle-InPlace (current ∷ [])
      (λ w. refl) current newest still refl (pos 30) key idle_started (λ w. refl)
