-- ===== src/Tests/Configs.antt =====
-- The theorems on configs at concrete inputs.
use redkey_operator.Common.{
  none, List, false, some, [], ◌∷◌, ◌++◌, ◌≡◌, refl, ◌⊎◌, All, last?, arith,
}
use redkey_operator.Common.Int.{pos, ◌<ℤ◌, ◌+ℤ◌, IsInt64, wrap64}
use redkey_operator.Common.Sort.{IsSorted, sort_slice}
use redkey_operator.Api.Config.{RedkeyConfig}
use redkey_operator.Kube.Client.{ok}
use redkey_operator.Kube.Action.{State, ◌>>=◌, Env, pure, ◌>>◌}
use redkey_operator.Config.Sequence.{select_active_config, list_configs, before, needs_new_config}
use redkey_operator.Config.Sequence.Order.{list_configs-IsSorted, next_sequence-greatest}
use redkey_operator.Config.Sequence.Active.{FirstBusy, Idle, select_active_config-cases}
use redkey_operator.Config.Sequence.Generation.{needs_new_config-created}
use mathlib.Core.List.{Perm}
use redkey_operator.Robin.Merge.{cluster_label}
use redkey_operator.Config.Create.{next_sequence, config_spec, config_meta}
use redkey_operator.Config.Create.Writes.{IsSuccessor}
use redkey_operator.Config.Cleanup.{delete_all, cleanup_superseded_configs}
use redkey_operator.Config.Cleanup.Suffix.{
  cleanup_superseded_configs-newest_applied, cleanup_superseded_configs-unapplied,
}
use redkey_operator.Tests.Server.{types, env, server-OwnerLaw}
use redkey_operator.Tests.Objects.{cluster, config_in}

abbrev K : Env types
K = env (ok cluster) []

abbrev c1 : RedkeyConfig types
c1 = config_in (pos 1) "Superseded"

abbrev c2 : RedkeyConfig types
c2 = config_in (pos 2) "Applied"

abbrev c3 : RedkeyConfig types
c3 = config_in (pos 3) "InProgress"

abbrev c4 : RedkeyConfig types
c4 = config_in (pos 4) "Pending"

cleanup_superseded_configs-newest_applied_example :
    cleanup_superseded_configs K (c1 ∷ [] ++ c2 ∷ c3 ∷ c4 ∷ [])
    ≡ (delete_all K (c1 ∷ []) >> pure (c2 ∷ c3 ∷ c4 ∷ []))
cleanup_superseded_configs-newest_applied_example =
    cleanup_superseded_configs-newest_applied K c1 [] (c3 ∷ c4 ∷ []) c2 refl (refl, (refl, tt))

cleanup_superseded_configs-unapplied_example :
    cleanup_superseded_configs K (c2 ∷ c3 ∷ c4 ∷ []) ≡ pure (c2 ∷ c3 ∷ c4 ∷ [])
cleanup_superseded_configs-unapplied_example =
    cleanup_superseded_configs-unapplied K c2 (c3 ∷ c4 ∷ []) (refl, (refl, tt))

listed_last : last? (sort_slice before (c4 ∷ c2 ∷ c3 ∷ [])) ≡ some c4
unfolding sort_slice config_spec
listed_last = refl

small : IsInt64 (c4.spec.sequence +ℤ pos 1)
unfolding config_spec ◌+ℤ◌
small = ground arith

next_sequence-greatest_example :
    All (λ c. c.spec.sequence <ℤ next_sequence (some c4)) (sort_slice before (c4 ∷ c2 ∷ c3 ∷ []))
next_sequence-greatest_example = next_sequence-greatest (c4 ∷ c2 ∷ c3 ∷ []) c4 listed_last small

next : IsSuccessor K cluster (some c2) c3
unfolding config_spec next_sequence wrap64 ◌+ℤ◌ config_meta
next = record { sequence = refl; owned = refl }

needs_new_config-created_example : needs_new_config cluster (some c3) ≡ false
needs_new_config-created_example =
    needs_new_config-created K (server-OwnerLaw (ok cluster) []) cluster cluster (some c2) c3
      (ground arith) next (ground arith)

select_active_config-cases_example :
    ((c : RedkeyConfig types) × (select_active_config (c2 ∷ c4 ∷ []) ≡ some c)
      × FirstBusy (c2 ∷ c4 ∷ []) c)
    ⊎ ((select_active_config (c2 ∷ c4 ∷ []) ≡ some c2) × All Idle (c2 ∷ c4 ∷ []))
select_active_config-cases_example = select_active_config-cases c2 (c4 ∷ [])

abbrev Listing : Env types
Listing = env (ok cluster) (c4 ∷ c2 ∷ c3 ∷ [])

abbrev idle : State Listing
idle = record {
  world = 5;
  registry = λ v ns name third. none;
  active = λ k. none;
  last_phase = λ k. none;
  sent = [];
}

listed : ((list_configs Listing cluster).run idle).0 ≡ ok (c2 ∷ c3 ∷ c4 ∷ [])
unfolding list_configs ◌>>=◌ sort_slice config_spec
listed = refl

list_configs-IsSorted_example :
    IsSorted before (c2 ∷ c3 ∷ c4 ∷ [])
    × ((items : List (RedkeyConfig types)) × ((Listing.list_configs "shop" cluster_label "cache"
            5).0
          ≡ ok items)
        × Perm (c2 ∷ c3 ∷ c4 ∷ []) items)
list_configs-IsSorted_example =
    list_configs-IsSorted Listing cluster idle (c2 ∷ c3 ∷ c4 ∷ []) listed
