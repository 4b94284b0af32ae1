-- ===== src/Reconcile/Request.antt =====
-- The first reconcile of a cluster that is scaled to zero.
use redkey_operator.Common.{
  true, false, some, List, [], ◌∷◌, ◌++◌, ◌≡◌, refl, ap, ◌∙◌, last?, arith,
}
use redkey_operator.Common.Int.{pos, eqb_ℤ}
use redkey_operator.Common.Sort.{sort_slice}
use redkey_operator.Api.Types.{Types, Time}
use redkey_operator.Api.Meta.{NamespacedName}
use redkey_operator.Api.Redkey.{Redkey}
use redkey_operator.Api.Config.{RedkeyConfig}
use redkey_operator.Kube.Client.{ok, Write, create, of_config}
use redkey_operator.Kube.Action.{Env, State, Action}
use redkey_operator.Kube.Does.{Does, Quiet, Does-if, Does-weaken, Does-pure, Does-Trace}
use redkey_operator.Kube.Does.Quiet.{after_quiet, then_quiet}
use redkey_operator.Kube.Willing.{Willing, everything}
use redkey_operator.Robin.Merge.{cluster_label}
use redkey_operator.Robin.Ensure.InPlace.{InPlace, ensure_rbac-Quiet, ensure_robin_deployment-Quiet}
use redkey_operator.Config.Sequence.Listed.{list_configs-Does}
use redkey_operator.Config.Sequence.{before}
use redkey_operator.Config.Create.{config_spec, create_new_config}
use redkey_operator.Config.Create.Writes.{IsSuccessor}
use redkey_operator.Config.Create.Succeeds.{create_new_config-Trace}
use redkey_operator.Config.Granted.{create_new_config-granted}
use redkey_operator.ScaleZero.Cases.{
  request_scale_to_zero, scale_to_zero_cases, reconcile_scale_to_zero,
}
use redkey_operator.Reconcile.{reconcile}
use redkey_operator.Reconcile.Fetched.{reconcile_zero-Does, reconcile-Does}

-- The one write: a config without primaries, the successor of the newest one.
abbrev pub Requested : {T : Types} (K : Env T) → Redkey T → RedkeyConfig T → List (Write T) → Type 0
Requested K cluster newest ws =
    (c : RedkeyConfig _) × IsSuccessor K cluster (some newest) c
    × (eqb_ℤ c.spec.primaries (pos 0) ≡ true)
    × (ws ≡ create (of_config c) ∷ [])

module _ {T : Types} {K : Env T} (willing : Willing K.kube) (cluster : Redkey T)
    (in_place : InPlace K cluster) (items : List (RedkeyConfig T))
    (listed : (w : K.World)
      → (K.list_configs cluster.meta.namespace cluster_label cluster.meta.name w).0 ≡ ok items)
    (newest : RedkeyConfig T) (found : last? (sort_slice before items) ≡ some newest)
    (still : eqb_ℤ newest.spec.primaries (pos 0) ≡ false)
    (zero : eqb_ℤ cluster.spec.primaries (pos 0) ≡ true) where
  silently : {m : Action K (Unit {0})} → Does m Quiet → Does m (λ u ws. Unit {0} × (ws ≡ []))
  silently d = Does-weaken _ _ (λ u ws h. (tt, h)) d

  creation : Does (create_new_config K cluster (some newest)) (λ u. Requested K cluster newest)
  unfolding config_spec
  creation =
      Does-weaken _ (λ u. Requested K cluster newest)
        (λ u ws h.
          let (c, successor, e) = h in
          (c, successor, ap (λ x. eqb_ℤ x.primaries (pos 0)) successor.sequence ∙ zero, e))
        (Does-Trace _ (create_new_config-granted willing everything cluster (some newest))
          (create_new_config-Trace K cluster (some newest)))

  request : Does (request_scale_to_zero K cluster newest) (λ c. Requested K cluster newest)
  unfolding request_scale_to_zero
  request =
      after_quiet (λ u. Unit) _ (silently (ensure_rbac-Quiet in_place))
        λ u v.
          after_quiet (λ u. Unit) _ (silently (ensure_robin_deployment-Quiet in_place))
            λ u v. then_quiet (Requested K cluster newest) creation (λ u. Does-pure _ _ refl)

  cases :
      Does
        (scale_to_zero_cases K cluster (sort_slice before items) (some newest))
        (λ c. Requested K cluster newest)
  unfolding scale_to_zero_cases
  cases =
      Does-if (eqb_ℤ newest.spec.primaries (pos 0)) _ _ _
        (λ none_left. absurd (ground (arith, still, none_left))) (λ e. request)

  scale : Does (reconcile_scale_to_zero K cluster) (λ c. Requested K cluster newest)
  unfolding reconcile_scale_to_zero
  scale =
      after_quiet _ _ (list_configs-Does cluster items listed) (λ configs e. rw (e, found) cases)

  -- On a server that grants every request, answers every read with one Redkey without primaries
  -- and with one listing, whose newest config still has some, and has Robin's objects as they
  -- should be: a reconcile succeeds, asks to be called again and removes nothing. It sends one
  -- write, to create the successor of the newest config, without primaries.
  pub reconcile-requests_zero :
      (interval : Time) (key : NamespacedName) (s : State K)
      → ((w : K.World) → (K.get_redkey key w).0 ≡ ok cluster)
      → (s' : State K) × (c : RedkeyConfig T) × ((reconcile K interval key).run s
          ≡ (ok (some interval), s'))
        × IsSuccessor K cluster (some newest) c
        × (eqb_ℤ c.spec.primaries (pos 0) ≡ true)
        × (s'.sent ≡ s.sent ++ create (of_config c) ∷ [])
  reconcile-requests_zero interval key s fetched =
      let (again, s', ws, ran, eq, (same, (c, successor, none_left, w))) =
        (reconcile-Does cluster (Requested K cluster newest) interval key fetched
            (rw zero (reconcile_zero-Does cluster (Requested K cluster newest) scale))).at
          s in
      (s', c, ran ∙ ap (λ x. (ok x, s')) same, successor, none_left, rw (← w) eq)
