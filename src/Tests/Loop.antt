-- ===== src/Tests/Loop.antt =====
-- The theorems on the reconcile loop at concrete inputs.
use redkey_operator.Common.{
  false, Option, none, some, List, [], ◌∷◌, ◌≡◌, refl, sym, subst, All, last?, arith,
}
use redkey_operator.Common.Int.{pos, ◌+ℤ◌, IsInt64}
use redkey_operator.Common.Sort.{sort_slice}
use redkey_operator.Api.Types.{Time}
use redkey_operator.Api.Config.{RedkeyConfig}
use redkey_operator.Kube.Client.{ok_injective, ok, err, api, create, of_config}
use redkey_operator.Kube.Action.{Env, State, Action, fail, ◌>>=◌}
use redkey_operator.Config.Sequence.{select_active_config, before}
use redkey_operator.Status.Aggregate.{aggregate_status}
use redkey_operator.Status.Aggregate.Observed.{Reports, aggregate_status-Reports}
use redkey_operator.Config.Create.{config_spec}
use redkey_operator.ScaleZero.Cases.KeepsRobin.{LeavesRobin, is_done}
use redkey_operator.Config.Create.{after_create, create_new_config}
use redkey_operator.Config.Create.Snapshot.{IsSnapshot}
use redkey_operator.Config.Create.Succeeds.{create_new_config-writes}
use redkey_operator.ScaleZero.Teardown.{
  delete_if_found, delete_robin_deployment, delete_rbac, delete_all_configs, scaled_to_zero_status,
  update_status_scaled_to_zero,
}
use redkey_operator.ScaleZero.Teardown.Complete.{Listed}
use redkey_operator.ScaleZero.Cases.{tear_down}
use redkey_operator.ScaleZero.Cases.RemovesAll.{teardown_writes, tear_down-writes}
use redkey_operator.Reconcile.{reconcile, reconcile_running}
use redkey_operator.Reconcile.Outcomes.{Forgotten, reconcile-gone}
use redkey_operator.Reconcile.Safety.{
  NeverDone, reconcile-keeps_robin, reconcile_running-keeps_robin,
}
use redkey_operator.Tests.Server.{
  server-ConditionLaws, types, server, env, missing, stale, server-RetryLaw, server-OwnerLaw,
  gauges-GaugeLaws,
}
use redkey_operator.Tests.Objects.{cluster, config_in, key}

abbrev listing : List (RedkeyConfig types)
listing = config_in (pos 2) "Applied" ∷ []

abbrev K : Env types
K = env (ok cluster) listing

-- The cluster was deleted.
abbrev Gone : Env types
Gone = env (err missing) []

abbrev started : State K
started = record {
  world = 5;
  registry = λ v ns name third. none;
  active = λ k. none;
  last_phase = λ k. none;
  sent = [];
}

abbrev gone : State Gone
gone = record {
  world = 5;
  registry = λ v ns name third. some 1;
  active = λ k. some (record { operation = "ScalingUp"; started_at = pos 1 });
  last_phase = λ k. some "Ready";
  sent = [];
}

some_injective : {A : Type 0} {a b : A} → ◌≡◌ {A = Option A} (some a) (some b) → a ≡ b
some_injective h = cc

listing-NeverDone : NeverDone K
unfolding sort_slice config_spec
listing-NeverDone ns label value w items e c found =
    subst (λ x. is_done x ≡ false) (some_injective first) refl
  where
    first : some (config_in (pos 2) "Applied") ≡ some c
    first = subst (λ xs. last? (sort_slice before xs) ≡ some c) (sym (ok_injective e)) found

-- A stage that the server refuses.
abbrev refused : Action K (Unit {0})
refused = fail (api stale)

reconcile-gone_example :
    (((reconcile Gone (pos 30) key).run gone).0 ≡ ok none)
    × (((reconcile Gone (pos 30) key).run gone).1.sent ≡ [])
    × Forgotten Gone key ((reconcile Gone (pos 30) key).run gone).1
reconcile-gone_example = reconcile-gone Gone gauges-GaugeLaws (pos 30) key gone missing refl refl

reconcile-keeps_robin_example : All LeavesRobin ((reconcile K (pos 30) key).run started).1.sent
reconcile-keeps_robin_example =
    reconcile-keeps_robin K (server-RetryLaw (ok cluster) listing) listing-NeverDone (pos 30) key
      started tt

reconcile_running-keeps_robin_example :
    All LeavesRobin ((reconcile_running K cluster).run started).1.sent
reconcile_running-keeps_robin_example =
    reconcile_running-keeps_robin K (server-RetryLaw (ok cluster) listing) cluster started tt

abbrev torn : State K
torn = ((tear_down K cluster).run started).1

torn_down : (tear_down K cluster).run started ≡ (
  ok (record cluster {
    status = scaled_to_zero_status (server (ok cluster) listing) (pos 5) cluster;
  }),
  torn,
)
unfolding tear_down delete_robin_deployment delete_rbac delete_all_configs delete_if_found
    update_status_scaled_to_zero ◌>>=◌
torn_down = refl

tear_down-writes_example :
    (items : List (RedkeyConfig types)) × (t : Time) × Listed K cluster items
    × (torn.sent ≡ teardown_writes K cluster items t)
tear_down-writes_example = tear_down-writes K cluster started _ torn torn_down

abbrev last_config : RedkeyConfig types
last_config = config_in (pos 2) "Applied"

abbrev created : State K
created = ((create_new_config K cluster (some last_config)).run started).1

creation : (create_new_config K cluster (some last_config)).run started ≡ (ok tt, created)
unfolding create_new_config after_create ◌>>=◌
creation = refl

number_fits : IsInt64 (pos 2 +ℤ pos 1)
unfolding ◌+ℤ◌
number_fits = ground arith

create_new_config-writes_example :
    (c : RedkeyConfig types) × IsSnapshot K cluster (some last_config) c
    × (created.sent ≡ create (of_config c) ∷ [])
unfolding config_spec
create_new_config-writes_example =
    create_new_config-writes K (server-OwnerLaw (ok cluster) listing) cluster (some last_config)
      started tt created number_fits creation

chosen : select_active_config listing ≡ some (config_in (pos 2) "Applied")
unfolding select_active_config
chosen = refl

aggregate_status-Reports_example :
    All
      (Reports cluster (config_in (pos 2) "Applied"))
      ((aggregate_status K cluster listing).run started).1.sent
aggregate_status-Reports_example =
    aggregate_status-Reports K (server-RetryLaw (ok cluster) listing)
      (server-ConditionLaws (ok cluster) listing) cluster listing (config_in (pos 2) "Applied")
      started chosen tt
