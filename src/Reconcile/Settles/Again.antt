-- ===== src/Reconcile/Settles/Again.antt =====
-- A reconcile where nothing is left to do: it writes the status and nothing else.
use mathlib.Core.List.{append-nil}
use redkey_operator.Common.{
  false, ◌||◌, Option, none, some, List, [], ◌∷◌, ◌++◌, ◌≡◌, refl, ap, ◌∙◌, last?, length, eqb,
  arith,
}
use redkey_operator.Api.Types.{Types}
use redkey_operator.Api.Redkey.{Redkey, RedkeyStatus}
use redkey_operator.Api.Config.{RedkeyConfig}
use redkey_operator.Kube.Client.{Write}
use redkey_operator.Kube.Action.{Env}
use redkey_operator.Kube.Runs.{Runs, Runs-quiet, Runs-bind, Runs-weaken, Runs-pure, Runs-if}
use redkey_operator.Kube.Runs.Still.{Runs-Still}
use redkey_operator.Kube.Stored.{Stored}
use redkey_operator.Robin.Deployment.{build_desired_robin_deployment, robin_pod_spec}
use redkey_operator.Robin.Ensure.{
  robin_key, rbac_meta, desired_subjects, desired_role_ref, ensure_service_account, ensure_role,
  ensure_role_binding, ensure_rbac, ensure_robin_deployment,
}
use redkey_operator.Robin.Ensure.Rests.{ensure_rbac-Rests, ensure_robin_deployment-Rests}
use redkey_operator.Config.Sequence.{needs_new_config, select_active_config}
use redkey_operator.Config.Cleanup.Suffix.{cleanup_superseded_configs-unapplied}
use redkey_operator.Config.Orderly.{listed, list_configs-Runs}
use redkey_operator.Metrics.Record.Total.{record_redkey_metrics-Still}
use redkey_operator.Reconcile.{ensure_config, settle_configs, reconcile_running}
use redkey_operator.Reconcile.Settles.{Keeping, Settled}
use redkey_operator.Reconcile.Settles.Stages.{
  stage-Runs, Refreshed, select_active_config-some, aggregate_status-Runs,
}

module _ {T : Types} (K : Env T) (cluster : Redkey T) (status : RedkeyStatus T) where
  -- Robin's objects do not depend on the status of the cluster.
  ensure_rbac-status : ensure_rbac K (record cluster { status = status }) ≡ ensure_rbac K cluster
  unfolding ensure_rbac ensure_service_account ensure_role ensure_role_binding robin_key rbac_meta
      desired_subjects desired_role_ref
  ensure_rbac-status = refl

  ensure_robin_deployment-status :
      ensure_robin_deployment K (record cluster { status = status })
      ≡ ensure_robin_deployment K cluster
  unfolding ensure_robin_deployment robin_key build_desired_robin_deployment robin_pod_spec
  ensure_robin_deployment-status = refl

-- Where the status names the generation no config is needed.
needs_new_config-observed :
    {T : Types} (cluster : Redkey T) (latest : Option (RedkeyConfig T))
    → cluster.status.observed_generation ≡ cluster.meta.generation
    → needs_new_config cluster latest ≡ false
unfolding needs_new_config
needs_new_config-observed cluster none e = ground (arith, e)
needs_new_config-observed cluster (some config) e = ground (arith, e)

module _ {T : Types} {K : Env T} {view : K.World → Stored T} (cluster : Redkey T)
    (keeping : Keeping K view cluster) (v : Stored T) (settled : Settled cluster keeping v) where
  -- The cluster as it is stored.
  abbrev current : Redkey T
  current = record cluster { status = settled.status }

  abbrev OneStatus : {A : Type 0} → A → Stored T → List (Write T) → Type 0
  OneStatus u v' ws =
      (active : RedkeyConfig T) × (select_active_config (listed v) ≡ some active)
      × Refreshed K current active v v' ws

  some_config : eqb (length (listed v)) 0 ≡ false
  some_config = let (c, rest, shape, unapplied) = settled.clean in rw shape (ground arith)

  no_config_needed :
      Runs view
        (ensure_config K current (listed v))
        v
        (λ configs v' ws. (configs ≡ listed v) × (v' ≡ v) × (ws ≡ []))
  unfolding ensure_config
  no_config_needed =
      Runs-if (eqb (length (listed v)) 0 || needs_new_config current (last? (listed v))) _ _ _
        (λ needed. absurd (
          ground (
            arith,
            needed,
            some_config,
            needs_new_config-observed current (last? (listed v)) settled.observed,
          )))
        (λ covered. Runs-pure _ _ (refl, refl, refl))

  settle_again : Runs view (settle_configs K current (listed v)) v OneStatus
  unfolding settle_configs
  settle_again =
      let (c, rest, shape, unapplied) = settled.clean in
      let (active, chosen) = select_active_config-some c rest in
      rw (shape, cleanup_superseded_configs-unapplied K c rest unapplied)
        (Runs-quiet _ (c ∷ rest) v _
          (stage-Runs _ _ v _ (Runs-pure (c ∷ rest) _ (refl, refl, refl)))
          (Runs-bind _ OneStatus
            (stage-Runs _ _ v _ (
              aggregate_status-Runs current keeping.objects v (c ∷ rest) active keeping.retry
                keeping.robin.clock_same settled.redkey chosen))
            (λ d v' ws (status, observed, same, t, one). Runs-pure _ _ (
              active,
              ap select_active_config shape ∙ chosen,
              (status, observed, same, t, ap (λ xs. xs ++ []) one),
            ))))

  pub reconcile_running-Again : Runs view (reconcile_running K current) v OneStatus
  unfolding reconcile_running
  reconcile_running-Again =
      rw
        (
          ensure_rbac-status K cluster settled.status,
          ensure_robin_deployment-status K cluster settled.status,
        )
        (Runs-quiet _ tt v OneStatus
          (Runs-weaken _ _ (λ u v' ws h. (refl, h.0, h.1))
            (stage-Runs _ _ v _
              (ensure_rbac-Rests cluster keeping.robin keeping.owned v settled.placed.rbac)))
          (Runs-quiet _ tt v OneStatus
            (Runs-weaken _ _ (λ u v' ws h. (refl, h.0, h.1))
              (stage-Runs _ _ v _ (
                ensure_robin_deployment-Rests cluster keeping.robin keeping.owned v
                  settled.placed.deployment)))
            (Runs-quiet _ (listed v) v OneStatus
              (stage-Runs _ _ v _ (list_configs-Runs current keeping.objects v settled.orderly))
              (Runs-quiet _ (listed v) v OneStatus no_config_needed (
                Runs-bind _ OneStatus settle_again (λ d v' ws one.
                  Runs-weaken _ _ (λ u v'' vs h. rw (h.0, h.1, append-nil ws) one)
                    (Runs-Still (
                      record_redkey_metrics-Still K view keeping.robin.clock_same d.0
                        (select_active_config d.1)))))))))
