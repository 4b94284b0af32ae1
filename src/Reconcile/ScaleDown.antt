-- ===== src/Reconcile/ScaleDown.antt =====
-- The last reconcile of a cluster that is scaled to zero.
use redkey_operator.Common.{true, some, List, ◌++◌, ◌≡◌, sym, ap, subst, ◌∙◌, last?, arith}
use redkey_operator.Common.Int.{pos, eqb_ℤ}
use redkey_operator.Common.Sort.{sort_slice}
use redkey_operator.Api.Types.{Types, Time}
use redkey_operator.Api.Meta.{NamespacedName}
use redkey_operator.Api.Redkey.{Redkey}
use redkey_operator.Api.Config.{RedkeyConfig}
use redkey_operator.Kube.Client.{ok_injective, ok, Write}
use redkey_operator.Kube.Laws.{RetryLaw}
use redkey_operator.Kube.Action.{Env, State}
use redkey_operator.Kube.Does.{Does, Does-bind, Does-weaken, Does-if, Does-Trace}
use redkey_operator.Kube.Store.{Store, replay}
use redkey_operator.Kube.Willing.{Willing}
use redkey_operator.ScaleZero.Cases.RemovesAll.Store.{Removed, teardown_writes-Removed}
use redkey_operator.Robin.Merge.{cluster_label}
use redkey_operator.Config.Sequence.Listed.{list_configs-Does}
use redkey_operator.Config.Sequence.{before, is_applied}
use redkey_operator.ScaleZero.Cases.{tear_down, scale_to_zero_cases, reconcile_scale_to_zero}
use redkey_operator.ScaleZero.Cases.KeepsRobin.{is_done}
use redkey_operator.ScaleZero.Cases.Granted.{tear_down-granted}
use redkey_operator.ScaleZero.Cases.RemovesAll.{teardown_writes, tear_down-Trace}
use redkey_operator.Reconcile.{reconcile}
use redkey_operator.Reconcile.Fetched.{reconcile_zero-Does, reconcile-Does}

-- The writes of a teardown, at some time.
abbrev TornDown :
    {T : Types} (K : Env T) → Redkey T → List (RedkeyConfig T) → List (Write T) → Type 0
TornDown K cluster items ws = (t : Time) × (ws ≡ teardown_writes K cluster items t)

module _ {T : Types} {K : Env T} (willing : Willing K.kube) (law : RetryLaw K.kube)
    (cluster : Redkey T) (items : List (RedkeyConfig T))
    (listed : (w : K.World)
      → (K.list_configs cluster.meta.namespace cluster_label cluster.meta.name w).0 ≡ ok items)
    (newest : RedkeyConfig T) (found : last? (sort_slice before items) ≡ some newest)
    (done : is_done newest ≡ true) where
  tear_down-TornDown : Does (tear_down K cluster) (λ a ws. TornDown K cluster items ws)
  tear_down-TornDown =
      Does-weaken _ (λ a ws. TornDown K cluster items ws)
        (λ a ws h.
          let (xs, t, (w, e), same) = h in
          (
            t,
            subst (λ ys. ws ≡ teardown_writes K cluster ys t) (ok_injective (sym e ∙ listed w))
                same,
          ))
        (Does-Trace _ (tear_down-granted willing law cluster) (tear_down-Trace K cluster))

  cases-TornDown :
      Does
        (scale_to_zero_cases K cluster (sort_slice before items) (some newest))
        (λ a ws. TornDown K cluster items ws)
  unfolding scale_to_zero_cases
  cases-TornDown =
      Does-if (eqb_ℤ newest.spec.primaries (pos 0)) _ _ _
        (λ zero.
          Does-if (is_applied newest) _ _ _ (λ applied. tear_down-TornDown)
            (λ no. absurd (ground (arith, done, no))))
        (λ no. absurd (ground (arith, done, no)))

  zero-TornDown : Does (reconcile_scale_to_zero K cluster) (λ a ws. TornDown K cluster items ws)
  unfolding reconcile_scale_to_zero
  zero-TornDown =
      Does-bind _ (λ configs a ws. TornDown K cluster items ws) _
        (list_configs-Does cluster items listed) (λ configs ws h. rw (h.0, found) cases-TornDown)
        (λ configs a ws vs h e. (e.0, rw (h.1) e.1))

  -- On a server that grants every request and answers every read with one Redkey without
  -- primaries and with one listing, whose newest config has none either and is Applied: one
  -- reconcile succeeds and asks to be called again, and its writes leave nothing, neither Robin's
  -- four objects nor a config of the listing, whatever else there was before. It is assumed that
  -- RetryOnConflict runs its function again only after a conflict.
  pub reconcile-removes_all :
      (interval : Time) (key : NamespacedName) (s : State K) (store : Store)
      → ((w : K.World) → (K.get_redkey key w).0 ≡ ok cluster)
      → eqb_ℤ cluster.spec.primaries (pos 0) ≡ true
      → (s' : State K) × (ws : List (Write T)) × ((reconcile K interval key).run s
          ≡ (ok (some interval), s'))
        × (s'.sent ≡ s.sent ++ ws)
        × Removed cluster items (replay ws store)
  reconcile-removes_all interval key s store fetched zero =
      let (again, s', ws, ran, eq, (same, (t, w))) =
        (reconcile-Does cluster (TornDown K cluster items) interval key fetched
            (rw zero (reconcile_zero-Does cluster (TornDown K cluster items) zero-TornDown))).at
          s in
      (
        s',
        ws,
        ran ∙ ap (λ x. (ok x, s')) same,
        eq,
        rw (w) (teardown_writes-Removed K cluster items t store),
      )
