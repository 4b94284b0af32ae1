-- ===== src/Reconcile/Steady.antt =====
-- A reconcile of a cluster where nothing is left to do.
use redkey_operator.Common.{
  false, ◌||◌, some, List, [], ◌∷◌, ◌++◌, ◌≡◌, refl, ap, ◌∙◌, last?, length, eqb, All, arith,
}
use redkey_operator.Common.Int.{pos, eqb_ℤ}
use redkey_operator.Common.Sort.{sort_slice}
use redkey_operator.Api.Types.{Types, Time}
use redkey_operator.Api.Redkey.{Redkey, own_key}
use redkey_operator.Api.Config.{RedkeyConfig}
use redkey_operator.Kube.Client.{ok, Write, update_status}
use redkey_operator.Kube.Laws.{RetryLaw}
use redkey_operator.Kube.Action.{Env, State, Action, read}
use redkey_operator.Kube.Does.{
  Does, Quiet, Does-if, Does-read, Does-weaken, Does-pure, Does-clock, Does-send_status, Does-retry,
}
use redkey_operator.Kube.Does.Quiet.{after_quiet, then_quiet}
use redkey_operator.Kube.Willing.{Willing}
use redkey_operator.Robin.Merge.{cluster_label}
use redkey_operator.Robin.Ensure.InPlace.{InPlace, ensure_rbac-Quiet, ensure_robin_deployment-Quiet}
use redkey_operator.Config.Sequence.Listed.{list_configs-Does}
use redkey_operator.Config.Sequence.{before, list_configs, needs_new_config, select_active_config}
use redkey_operator.Config.Cleanup.Suffix.{NotApplied, cleanup_superseded_configs-unapplied}
use redkey_operator.Status.Aggregate.{
  aggregated_status, refresh_status, aggregate_with, aggregate_status,
}
use redkey_operator.Metrics.Record.Total.{record_redkey_metrics-Quiet}
use redkey_operator.Reconcile.{ensure_config, settle_configs, reconcile_running, reconcile}
use redkey_operator.Reconcile.Fetched.{reconcile-Does}
use redkey_operator.Reconcile.Granted.{stage-Does}

-- The status of the cluster, aggregated at `t`.
abbrev pub refreshed : {T : Types} (K : Env T) → Redkey T → RedkeyConfig T → Time → Redkey T
refreshed K cluster active t = record cluster {
  status = aggregated_status K.kube cluster.meta.generation active t cluster;
}

-- The one write of its status.
abbrev StatusOnly : {T : Types} (K : Env T) → Redkey T → RedkeyConfig T → List (Write T) → Type 0
StatusOnly K cluster active ws =
    (t : Time) × (ws ≡ update_status (refreshed K cluster active t) ∷ [])

module _ {T : Types} {K : Env T} (willing : Willing K.kube) (law : RetryLaw K.kube)
    (cluster : Redkey T) (items : List (RedkeyConfig T)) (c : RedkeyConfig T)
    (rest : List (RedkeyConfig T)) (active : RedkeyConfig T)
    (listed : (w : K.World)
      → (K.list_configs cluster.meta.namespace cluster_label cluster.meta.name w).0 ≡ ok items)
    (sorted : sort_slice before items ≡ c ∷ rest)
    (covered : needs_new_config cluster (last? (c ∷ rest)) ≡ false)
    (unapplied : All NotApplied rest) (chosen : select_active_config (c ∷ rest) ≡ some active)
    (fetched : (w : K.World) → (K.get_redkey (own_key cluster) w).0 ≡ ok cluster) where
  fetch :
      Does {K = K}
        (read {K = K} (K.get_redkey (own_key cluster)))
        (λ latest ws. (latest ≡ cluster) × (ws ≡ []))
  fetch = Does-read _ (λ latest. latest ≡ cluster) (λ w. (cluster, fetched w, refl))

  listing : Does (list_configs K cluster) (λ configs ws. (configs ≡ c ∷ rest) × (ws ≡ []))
  listing =
      Does-weaken _ _ (λ configs ws h. (h.0 ∙ sorted, h.1)) (list_configs-Does cluster items listed)

  refresh : Does (refresh_status K cluster active) (λ d. StatusOnly K cluster active)
  unfolding refresh_status
  refresh =
      after_quiet (λ latest. latest ≡ cluster) _ fetch
        (λ latest e. rw e (
          after_quiet (λ t. Unit) _ (Does-weaken _ _ (λ t ws h. (tt, h)) Does-clock)
            (λ t u.
              Does-weaken _ _ (λ d ws h. (t, h)) (Does-send_status _ (willing.accepts_status _)))))

  aggregate : Does (aggregate_status K cluster (c ∷ rest)) (λ d. StatusOnly K cluster active)
  unfolding aggregate_status aggregate_with
  aggregate = rw chosen (
      then_quiet (StatusOnly K cluster active) (Does-retry _ _ law refresh)
        (λ d. Does-pure _ _ refl))

  settle : Does (settle_configs K cluster (c ∷ rest)) (λ d. StatusOnly K cluster active)
  unfolding settle_configs
  settle = rw (cleanup_superseded_configs-unapplied K c rest unapplied) (
      after_quiet (λ kept. kept ≡ c ∷ rest) _
        (stage-Does _ _ _ (Does-pure (c ∷ rest) _ (refl, refl)))
        (λ kept e. rw e (
          then_quiet (StatusOnly K cluster active) (stage-Does _ _ _ aggregate)
            (λ d. Does-pure _ _ refl))))

  ensure :
      Does (ensure_config K cluster (c ∷ rest)) (λ configs ws. (configs ≡ c ∷ rest) × (ws ≡ []))
  unfolding ensure_config
  ensure =
      Does-if (eqb (length (c ∷ rest)) 0 || needs_new_config cluster (last? (c ∷ rest))) _ _ _
        (λ needed. absurd (ground (arith, covered, needed))) (λ no. Does-pure _ _ (refl, refl))

  module _ (in_place : InPlace K cluster) where
    running : Does (reconcile_running K cluster) (λ u. StatusOnly K cluster active)
    unfolding reconcile_running
    running =
        after_quiet (λ u. Unit) _ (silently (stage-Does _ _ _ (ensure_rbac-Quiet in_place)))
          λ u v.
            after_quiet (λ u. Unit) _
              (silently (stage-Does _ _ _ (ensure_robin_deployment-Quiet in_place)))
              λ u v. after_quiet _ _ (stage-Does _ _ _ listing) λ xs e. rw e (
                after_quiet _ _ ensure λ ys e. rw e (
                  then_quiet (StatusOnly K cluster active) settle
                    λ d. record_redkey_metrics-Quiet K d.0 (select_active_config d.1)))
      where
        silently : {m : Action K (Unit {0})} → Does m Quiet → Does m (λ u ws. Unit × (ws ≡ []))
        silently d = Does-weaken _ _ (λ u ws h. (tt, h)) d

    -- On a server that grants every request, answers every read with one Redkey with primaries
    -- and with one listing, and has Robin's objects as the cluster asks for, where the listing
    -- has a config for the cluster's generation and none of its configs but possibly the first is
    -- Applied: a reconcile succeeds, asks to be called again, and sends exactly one write, the
    -- status aggregated from the active config. It is assumed that RetryOnConflict runs its
    -- function again only after a conflict.
    pub reconcile-steady :
        (interval : Time) (s : State K)
        → eqb_ℤ cluster.spec.primaries (pos 0) ≡ false
        → (s' : State K) × (t : Time) × ((reconcile K interval (own_key cluster)).run s
            ≡ (ok (some interval), s'))
          × (s'.sent ≡ s.sent ++ update_status (refreshed K cluster active t) ∷ [])
    reconcile-steady interval s some_primaries =
        let (again, s', ws, ran, eq, (same, (t, w))) =
          (reconcile-Does cluster (StatusOnly K cluster active) interval (own_key cluster) fetched
              (rw some_primaries running)).at
            s in
        (s', t, ran ∙ ap (λ x. (ok x, s')) same, rw (← w) eq)
