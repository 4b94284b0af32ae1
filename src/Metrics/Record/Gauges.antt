-- ===== src/Metrics/Record/Gauges.antt =====
-- What a scrape reads of the gauges that recordRedkeyMetrics sets.
use redkey_operator.Common.{
  String, Bool, true, false, ◌&&◌, ◌||◌, ◌==◌, none, some, List, [], ◌∷◌, ◌≡◌, refl, ap, ◌∙◌, arith,
  if◌then◌else◌, eq_refl, eq_iff,
}
use redkey_operator.Api.Types.{Types}
use redkey_operator.Kube.Collectors.{GaugeVec, redkey_operation_in_progress}
use redkey_operator.Kube.Laws.{same_vec, GaugeLaws}
use redkey_operator.Kube.Action.{Env}
use redkey_operator.Metrics.Trackers.{in_operation}
use redkey_operator.Metrics.Record.{set_states, set_in_progress}

abbrev pub among : String → List String → Bool
among value [] = false
among value (v ∷ values) = value == v || among value values

same_vec_refl : (v : GaugeVec) → same_vec v v ≡ true
same_vec_refl GaugeVec.redkey_phase = refl
same_vec_refl GaugeVec.redkey_config_phase = refl
same_vec_refl GaugeVec.redkey_operation_in_progress = refl

module _ {T : Types} (K : Env T) (laws : GaugeLaws K.collectors) where
  one_set :
      (vec : GaugeVec) (ns name active value v : String) (r : K.Registry)
      → K.gauge vec ns name value (K.set_gauge vec ns name v (if v == active then 1 else 0) r) ≡ (
          if value == v
          then some (if value == active then 1 else 0)
          else K.gauge vec ns name value r)
  one_set vec ns name active value v r =
      laws.gauge-set vec vec ns name v ns name value (if v == active then 1 else 0) r
      ∙ ground (
        arith,
        same_vec_refl vec,
        eq_refl ns,
        eq_refl name,
        eq_iff value v,
        ap (λ x. x == active),
      )

  -- Where a gauge holds what was last set: of a state set, the active value reads 1 and every
  -- other listed value reads 0. A value that is not listed keeps what it had.
  pub gauge-set_states :
      (vec : GaugeVec) (ns name active : String) (values : List String) (value : String)
      (r : K.Registry)
      → K.gauge vec ns name value (set_states K vec ns name active values r) ≡ (
          if among value values
          then some (if value == active then 1 else 0)
          else K.gauge vec ns name value r)
  unfolding set_states
  gauge-set_states vec ns name active [] value r = refl
  gauge-set_states vec ns name active (v ∷ values) value r =
      gauge-set_states vec ns name active values value _
      ∙ ground (arith, one_set vec ns name active value v r)

  -- Where a gauge holds what was last set until its series is deleted: of the operations of a
  -- cluster, a scrape finds the one under way and no other, and none where the status names no
  -- operation. The series of other clusters are left alone.
  pub gauge-set_in_progress :
      (ns name status ns' name' operation : String) (r : K.Registry)
      → K.gauge redkey_operation_in_progress ns' name' operation
          (set_in_progress K ns name status r)
        ≡ (if ns' == ns && name' == name
            then (if in_operation status && operation == status then some 1 else none)
            else K.gauge redkey_operation_in_progress ns' name' operation r)
  unfolding set_in_progress
  gauge-set_in_progress ns name status ns' name' operation r = ground (
    arith,
    laws.gauge-set redkey_operation_in_progress redkey_operation_in_progress ns name status ns'
        name' operation 1 (K.delete_partial_match redkey_operation_in_progress ns name r),
    laws.gauge-delete redkey_operation_in_progress redkey_operation_in_progress ns name ns' name'
        operation r,
  )
