-- ===== src/Reconcile/Outcomes.antt =====
-- What a reconcile returns and leaves behind where a stage fails or the cluster is gone.
use redkey_operator.Common.{
  String, true, none, [], ◌∷◌, ◌≡◌, refl, ◌∙◌, arith, if◌then◌else◌, eq_refl,
}
use redkey_operator.Api.Types.{Types, Time}
use redkey_operator.Api.Meta.{NamespacedName}
use redkey_operator.Kube.Client.{ok, err}
use redkey_operator.Kube.Collectors.{
  GaugeVec, redkey_reconcile_stage_errors, redkey_phase, redkey_config_phase,
  redkey_operation_in_progress,
}
use redkey_operator.Kube.Action.{Env, State, Action, ◌>>=◌, ◌>>◌, pure}
use redkey_operator.Kube.Laws.{same_vec, GaugeLaws}
use redkey_operator.Metrics.Trackers.{forget_operation, forget_readiness}
use redkey_operator.Metrics.Trackers.Operations.{same_key_refl}
use redkey_operator.Metrics.Record.{delete_redkey_metrics}
use redkey_operator.Reconcile.{stage, reconcile}

module _ {T : Types} (K : Env T) where
  -- A stage returns what its action returns, error or not, and sends what it sends. An error is
  -- counted once, under the stage's name, and a success is not counted.
  pub stage-outcome :
      {A : Type 0} (name : String) (m : Action K A) (s : State K)
      → (let (r, after) = m.run s in
          let (r', after') = (stage K name m).run s in
          (r' ≡ r)
          × (after'.sent ≡ after.sent)
          × (after'.world ≡ after.world)
          × (after'.registry ≡ (elim r [
            | ok _ ↦ after.registry
            | err _ ↦ K.inc redkey_reconcile_stage_errors (name ∷ []) after.registry
          ])))
  unfolding stage ◌>>=◌
  stage-outcome {A} name m s = (ground arith, ground arith, ground arith, ground arith)

  -- Nothing of a cluster is left in the process after its metrics were deleted.
  abbrev pub Forgotten : NamespacedName → State K → Type 0
  Forgotten key s =
      (s.active key ≡ none)
      × (s.last_phase key ≡ none)
      × ((vec : GaugeVec) (third : String)
          → K.gauge vec key.namespace key.name third s.registry ≡ none)

  delete_redkey_metrics-Forgotten :
      GaugeLaws K.collectors
      → (key : NamespacedName) (s : State K) → Forgotten key ((delete_redkey_metrics K key).run s).1
  unfolding delete_redkey_metrics forget_operation forget_readiness ◌>>=◌
  delete_redkey_metrics-Forgotten laws key s =
      (ground (arith, same_key_refl key), ground (arith, same_key_refl key), silent)
    where
      deleted :
          (v : GaugeVec) (u : GaugeVec) (third : String) (r : K.Registry)
          → K.gauge u key.namespace key.name third
              (K.delete_partial_match v key.namespace key.name r)
            ≡ (if same_vec u v then none else K.gauge u key.namespace key.name third r)
      deleted v u third r =
          laws.gauge-delete v u key.namespace key.name key.namespace key.name third r
          ∙ ground (arith, eq_refl key.namespace, eq_refl key.name)

      silent :
          (vec : GaugeVec) (third : String)
          → K.gauge vec key.namespace key.name third (
              K.delete_partial_match redkey_operation_in_progress key.namespace key.name (
                K.delete_partial_match redkey_config_phase key.namespace key.name
                  (K.delete_partial_match redkey_phase key.namespace key.name s.registry)))
            ≡ none
      silent redkey_phase third =
          deleted redkey_operation_in_progress redkey_phase third _
          ∙ (deleted redkey_config_phase redkey_phase third _
              ∙ deleted redkey_phase redkey_phase third _)
      silent redkey_config_phase third =
          deleted redkey_operation_in_progress redkey_config_phase third _
          ∙ deleted redkey_config_phase redkey_config_phase third _
      silent redkey_operation_in_progress third =
          deleted redkey_operation_in_progress redkey_operation_in_progress third _

  -- Where a gauge's series are gone once they are deleted: when the server answers that the
  -- cluster is not found, the reconcile succeeds, asks for no further call, sends nothing, and
  -- forgets the cluster: its operation, its readiness and every series of its three gauges.
  pub reconcile-gone :
      GaugeLaws K.collectors
      → (interval : Time) (key : NamespacedName) (s : State K) (e : K.ApiError)
      → (K.get_redkey key s.world).0 ≡ err e
      → K.is_not_found e ≡ true
      → (let (r, s') = (reconcile K interval key).run s in
          (r ≡ ok none) × (s'.sent ≡ s.sent) × Forgotten key s')
  unfolding reconcile delete_redkey_metrics ◌>>=◌
  reconcile-gone laws interval key s e absent gone = rw (answered) (
    refl,
    refl,
    delete_redkey_metrics-Forgotten laws key (record s { world = (K.get_redkey key s.world).1 }),
  )
    where
      answered :
          (reconcile K interval key).run s
          ≡ (delete_redkey_metrics K key >> pure none).run
              (record s { world = (K.get_redkey key s.world).1 })
      answered = ground (arith, absent, gone)
