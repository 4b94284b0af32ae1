-- ===== src/Reconcile/Safety.antt =====
-- What a reconcile sends, on every path and whatever the server answers.
use redkey_operator.Common.{
  String, false, none, some, List, [], ◌∷◌, ◌≡◌, refl, ◌||◌, last?, eqb, All, length,
}
use redkey_operator.Common.Int.{pos, eqb_ℤ}
use redkey_operator.Common.Sort.{sort_slice}
use redkey_operator.Api.Types.{Types, Time}
use redkey_operator.Api.Meta.{NamespacedName}
use redkey_operator.Api.Config.{RedkeyConfig}
use redkey_operator.Api.Redkey.{Redkey}
use redkey_operator.Kube.Client.{Result, ok, err, Write}
use redkey_operator.Kube.Action.{Env, State, Action, not_found}
use redkey_operator.Kube.Laws.{RetryLaw}
use redkey_operator.Kube.Keeps.{
  Keeps, Any, Returns, Keeps-bind, Keeps-then, Keeps-if, Keeps-pure, Keeps-fail, Keeps-attempt-Any,
}
use redkey_operator.Kube.Sent.{Sent, sent_rules, Keeps-emit, Keeps-read, Keeps-read_with}
use redkey_operator.Robin.Ensure.Writes.{ensure_rbac-Sent, ensure_robin_deployment-Sent}
use redkey_operator.Config.Sequence.{before, list_configs, needs_new_config, select_active_config}
use redkey_operator.Config.Create.Writes.{create_new_config-Sent}
use redkey_operator.Config.Cleanup.Writes.{cleanup_superseded_configs-Sent}
use redkey_operator.Status.Aggregate.Writes.{aggregate_status-Sent}
use redkey_operator.Metrics.Record.Silent.{record_redkey_metrics-Sent, delete_redkey_metrics-Sent}
use redkey_operator.ScaleZero.Cases.{reconcile_scale_to_zero}
use redkey_operator.ScaleZero.Cases.KeepsRobin.{
  LeavesRobin, is_done, Ensures-LeavesRobin, scale_to_zero_cases-LeavesRobin,
}
use redkey_operator.Reconcile.{
  stage, ensure_config, settle_configs, reconcile_running, reconcile_zero, reconcile,
}

-- No listing of configs shows one that has the highest sequence, no primaries and is Applied.
abbrev pub NeverDone : {T : Types} → Env T → Type 0
NeverDone {T} K =
    (ns label value : String) (w : K.World) (items : List (RedkeyConfig T))
    → (K.list_configs ns label value w).0 ≡ ok items
    → (c : RedkeyConfig T) → last? (sort_slice before items) ≡ some c
    → is_done c ≡ false

module _ {T : Types} {K : Env T} {Q : Write T → Type 0} where
  pub stage-Sent :
      {A : Type 0} (name : String) (m : Action K A)
      → Keeps (Sent Q) m Any
      → Keeps (Sent Q) (stage K name m) Any
  unfolding stage
  stage-Sent name m k =
      Keeps-then _ _ (Keeps-attempt-Any m k)
        (elim [ ok a ↦ Keeps-pure a tt | err e ↦ Keeps-then _ _ (Keeps-emit _) λ _. Keeps-fail e ])

  pub list_configs-Sent : (cluster : Redkey T) → Keeps (Sent Q) (list_configs K cluster) Any
  unfolding list_configs
  list_configs-Sent cluster = search (sent_rules, tt)

module _ {T : Types} (K : Env T) (law : RetryLaw K.kube) where
  ensure_config-LeavesRobin :
      (cluster : Redkey T) (configs : List (RedkeyConfig T))
      → Keeps (Sent LeavesRobin) (ensure_config K cluster configs) Any
  unfolding ensure_config
  ensure_config-LeavesRobin cluster configs =
      Keeps-if (eqb (length configs) 0 || needs_new_config cluster (last? configs)) _ _
        (λ _.
          Keeps-then _ _
            (stage-Sent "create_new_config" _
              (create_new_config-Sent K cluster (last? configs) LeavesRobin (λ c h. tt)))
            λ _. stage-Sent "list_configs" _ (list_configs-Sent cluster))
        (λ _. Keeps-pure configs tt)

  settle_configs-LeavesRobin :
      (cluster : Redkey T) (configs : List (RedkeyConfig T))
      → Keeps (Sent LeavesRobin) (settle_configs K cluster configs) Any
  unfolding settle_configs
  settle_configs-LeavesRobin cluster [] = Keeps-pure _ tt
  settle_configs-LeavesRobin cluster (c ∷ configs) =
      Keeps-then _ _
        (stage-Sent "cleanup_superseded_configs" _
          (cleanup_superseded_configs-Sent K LeavesRobin (c ∷ configs) (λ d. tt)))
        λ kept.
          Keeps-then _ _
            (stage-Sent "aggregate_status" _
              (aggregate_status-Sent K law LeavesRobin (λ d. tt) cluster kept))
            λ updated. Keeps-pure _ tt

  reconcile_running-LeavesRobin :
      (cluster : Redkey T) → Keeps (Sent LeavesRobin) (reconcile_running K cluster) Any
  unfolding reconcile_running
  reconcile_running-LeavesRobin cluster =
      Keeps-then _ _
        (stage-Sent "ensure_rbac" _
          (ensure_rbac-Sent K cluster LeavesRobin (Ensures-LeavesRobin K law cluster)))
        λ _.
          Keeps-then _ _
            (stage-Sent "ensure_robin_deployment" _ (
              ensure_robin_deployment-Sent K cluster LeavesRobin
                (Ensures-LeavesRobin K law cluster)))
            λ _. Keeps-then _ _ (stage-Sent "list_configs" _ (list_configs-Sent cluster)) λ listed.
              Keeps-then _ _ (ensure_config-LeavesRobin cluster listed) λ configs.
                Keeps-then _ _ (settle_configs-LeavesRobin cluster configs)
                  λ settled. record_redkey_metrics-Sent K settled.0 (select_active_config settled.1)

  module _ (never : NeverDone K) where
    list_configs-not_done :
        (cluster : Redkey T)
        → Keeps
            (Sent LeavesRobin)
            (list_configs K cluster)
            (λ configs. (c : RedkeyConfig T) → last? configs ≡ some c → is_done c ≡ false)
    unfolding list_configs
    list_configs-not_done cluster =
        Keeps-bind
          {R = λ items.
            (c : RedkeyConfig T) → last? (sort_slice before items) ≡ some c → is_done c ≡ false}
          _ _ (Keeps-read_with _ (λ w. listed w _ refl)) λ items known. Keeps-pure _ known
      where
        listed :
            (w : K.World) (r : Result K.ApiError (List (RedkeyConfig T)))
            → (K.list_configs cluster.meta.namespace "redkey.inditex.dev/cluster" cluster.meta.name
                w).0
              ≡ r
            → Returns
                (λ items.
                  (c : RedkeyConfig T)
                  → last? (sort_slice before items) ≡ some c
                  → is_done c ≡ false)
                r
        listed w (ok items) e = never _ _ _ w items e
        listed w (err e) h = tt

    reconcile_zero-LeavesRobin :
        (cluster : Redkey T) → Keeps (Sent LeavesRobin) (reconcile_zero K cluster) Any
    unfolding reconcile_zero reconcile_scale_to_zero
    reconcile_zero-LeavesRobin cluster =
        Keeps-then _ _
          (stage-Sent "scale_to_zero" _ (
            Keeps-bind _ _ (list_configs-not_done cluster) λ configs known.
              scale_to_zero_cases-LeavesRobin K law cluster configs (last? configs) known))
          λ updated. record_redkey_metrics-Sent K updated none

    reconcile-LeavesRobin :
        (interval : Time) (key : NamespacedName)
        → Keeps (Sent LeavesRobin) (reconcile K interval key) Any
    unfolding reconcile
    reconcile-LeavesRobin interval key = Keeps-then _ _ (Keeps-attempt-Any _ (Keeps-read _)) (elim [
      | ok cluster ↦
          Keeps-then _ _
            (Keeps-if (eqb_ℤ cluster.spec.primaries (pos 0)) _ _
              (λ _. reconcile_zero-LeavesRobin cluster)
              (λ _. reconcile_running-LeavesRobin cluster))
            λ _. Keeps-pure _ tt
      | err e ↦
          Keeps-if (not_found K e) _ _
            (λ _. Keeps-then _ _ (delete_redkey_metrics-Sent K key) λ _. Keeps-pure none tt)
            (λ _. Keeps-then _ _ (Keeps-emit _) λ _. Keeps-fail e)
    ])

    -- As long as no listing shows that Robin has applied a newest config without primaries, and a
    -- conflict only makes RetryOnConflict run its function again, no reconcile adds a deletion of
    -- a Deployment, Role or ServiceAccount to the writes that were sent, on any path and whatever
    -- the server answers.
    pub reconcile-keeps_robin :
        (interval : Time) (key : NamespacedName) (s : State K)
        → All LeavesRobin s.sent
        → All LeavesRobin ((reconcile K interval key).run s).1.sent
    reconcile-keeps_robin interval key s h =
        ((reconcile-LeavesRobin interval key).at s (record { all = h })).0.all

  -- Where a conflict only makes RetryOnConflict run its function again, the loop for a cluster
  -- with primaries adds no deletion of a Deployment, Role or ServiceAccount to the writes that
  -- were sent, on any path and whatever the server answers.
  pub reconcile_running-keeps_robin :
      (cluster : Redkey T) (s : State K)
      → All LeavesRobin s.sent
      → All LeavesRobin ((reconcile_running K cluster).run s).1.sent
  reconcile_running-keeps_robin cluster s h =
      ((reconcile_running-LeavesRobin cluster).at s (record { all = h })).0.all
