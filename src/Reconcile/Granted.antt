-- ===== src/Reconcile/Granted.antt =====
-- A reconcile on a server that grants every request.
use mathlib.Core.List.{append-nil}
use redkey_operator.Common.{
  All, String, ◌||◌, none, some, List, [], ◌∷◌, ◌≡◌, refl, sym, ap, subst, ◌∙◌, ◌++◌, eqb, length,
  last?,
}
use redkey_operator.Api.Types.{Types, Time}
use redkey_operator.Api.Meta.{NamespacedName}
use redkey_operator.Api.Redkey.{Redkey}
use redkey_operator.Api.Config.{RedkeyConfig}
use redkey_operator.Kube.Client.{ok_injective, ok, Write}
use redkey_operator.Kube.Laws.{RetryLaw}
use redkey_operator.Kube.Action.{Env, State, Action}
use redkey_operator.Kube.Does.{
  Does, Anything, Does-then, Does-bind, Does-attempt, Does-read, Does-weaken, Does-pure,
}
use redkey_operator.Kube.Willing.{Allows, everything, Willing, Does-Anything, pure_any, if_any}
use redkey_operator.Robin.Ensure.Granted.{ensure_rbac-granted, ensure_robin_deployment-granted}
use redkey_operator.Config.Sequence.{needs_new_config, select_active_config}
use redkey_operator.Config.Granted.{
  list_configs-granted, create_new_config-granted, cleanup_superseded_configs-granted,
}
use redkey_operator.Status.Aggregate.Granted.{aggregate_status-granted}
use redkey_operator.Metrics.Record.Total.{record_redkey_metrics-Quiet}
use redkey_operator.ScaleZero.Cases.Granted.{reconcile_scale_to_zero-granted}
use redkey_operator.Reconcile.{
  stage, ensure_config, settle_configs, reconcile_running, reconcile_zero, reconcile,
}

module _ {T : Types} {K : Env T} where
  -- A stage adds nothing to an action that succeeds.
  pub stage-Does :
      {A : Type 0} (name : String) (m : Action K A) (W : A → List (Write T) → Type 0)
      → Does m W
      → Does (stage K name m) W
  unfolding stage
  stage-Does {A} name m W d =
      Does-bind (λ r ws. (a : A) × (r ≡ ok a) × W a ws) (λ r a ws. (r ≡ ok a) × (ws ≡ [])) W
        (Does-attempt m W d) (λ r ws h. rw (h.1) (Does-pure h.0 _ (refl, refl)))
        (λ r a ws vs h e.
          subst (λ x. W x (ws ++ vs)) (ok_injective (sym h.1 ∙ e.0)) (rw (e.1, append-nil ws) h.2))

module _ {T : Types} {K : Env T} (willing : Willing K.kube) (law : RetryLaw K.kube)
    {Q : Write T → Type 0} (allows : Allows Q) where
  pub ensure_config-granted :
      (cluster : Redkey T) (configs : List (RedkeyConfig T))
      → Does (ensure_config K cluster configs) (λ x ws. All Q ws)
  unfolding ensure_config
  ensure_config-granted cluster configs =
      if_any (eqb (length configs) 0 || needs_new_config cluster (last? configs)) _ _
        (Does-then
          (stage-Does _ _ _ (create_new_config-granted willing allows cluster (last? configs)))
          λ u. stage-Does _ _ _ (list_configs-granted willing allows cluster))
        (pure_any configs)

  pub settle_configs-granted :
      (cluster : Redkey T) (configs : List (RedkeyConfig T))
      → Does (settle_configs K cluster configs) (λ x ws. All Q ws)
  unfolding settle_configs
  settle_configs-granted cluster [] = pure_any _
  settle_configs-granted cluster (c ∷ configs) =
      Does-then (stage-Does _ _ _ (cleanup_superseded_configs-granted willing allows (c ∷ configs)))
        λ kept.
          Does-then (stage-Does _ _ _ (aggregate_status-granted willing law allows cluster kept))
            λ updated. pure_any _

module _ {T : Types} {K : Env T} (willing : Willing K.kube) (law : RetryLaw K.kube) where
  reconcile_running-granted : (cluster : Redkey T) → Does (reconcile_running K cluster) Anything
  unfolding reconcile_running
  reconcile_running-granted cluster =
      Does-then (stage-Does _ _ _ (ensure_rbac-granted willing cluster)) λ u.
        Does-then (stage-Does _ _ _ (ensure_robin_deployment-granted willing cluster)) λ u.
          Does-then (stage-Does _ _ _ (list_configs-granted willing everything cluster)) λ listed.
            Does-then (ensure_config-granted willing law everything cluster listed) λ configs.
              Does-then (settle_configs-granted willing law everything cluster configs) λ settled.
                Does-Anything _
                  (record_redkey_metrics-Quiet K settled.0 (select_active_config settled.1))

  reconcile_zero-granted : (cluster : Redkey T) → Does (reconcile_zero K cluster) Anything
  unfolding reconcile_zero
  reconcile_zero-granted cluster =
      Does-then (stage-Does _ _ _ (reconcile_scale_to_zero-granted willing law cluster))
        λ updated. Does-Anything _ (record_redkey_metrics-Quiet K updated none)

  reconcile-Does :
      (interval : Time) (key : NamespacedName)
      → Does (reconcile K interval key) (λ again ws. again ≡ some interval)
  unfolding reconcile
  reconcile-Does interval key =
      Does-bind (λ r ws. (c : Redkey T) × (r ≡ ok c)) (λ r again ws. again ≡ some interval) _
        (Does-weaken _ _ (λ r ws h. (h.0, h.1))
          (Does-attempt _ _ (
            Does-read _ (λ c. Unit)
              (λ w. ((willing.redkey key w).0, (willing.redkey key w).1, tt)))))
        (λ r ws h. rw (h.1) (
          Does-bind Anything (λ u again ws. again ≡ some interval) _
            (if_any _ _ _ (reconcile_zero-granted h.0) (reconcile_running-granted h.0))
            (λ u ws h. Does-pure (some interval) _ refl) (λ a b ws vs w v. v)))
        (λ a b ws vs w v. v)

  -- On a server that answers every read, accepts every write and has the Redkey, where
  -- RetryOnConflict runs its function again only after a conflict: a reconcile comes to an end
  -- without an error and asks to be called again after the resync interval.
  pub reconcile-succeeds :
      (interval : Time) (key : NamespacedName) (s : State K)
      → (s' : State K) × ((reconcile K interval key).run s ≡ (ok (some interval), s'))
  reconcile-succeeds interval key s =
      let (again, s', ws, ran, eq, same) = (reconcile-Does interval key).at s in
      (s', ran ∙ ap (λ x. (ok x, s')) same)
