-- ===== src/Kube/Laws.antt =====
-- What the operator relies on of the code outside the repository: documented behaviour, each law a
-- field that a theorem takes only where it needs it.
use redkey_operator.Common.{
  [], ◌∷◌, ℕ, suc, String, Bool, true, false, Option, none, some, List, [], ◌≡◌, ◌↔◌, ◌==◌, ◌&&◌,
  if◌then◌else◌,
}
use redkey_operator.Common.GoMap.{GoMap, Same}
use redkey_operator.Api.Types.{Types, Time}
use redkey_operator.Api.Meta.{ObjectMeta, Condition}
use redkey_operator.Kube.Client.{Kube, Result, ok, err}
use redkey_operator.Kube.Collectors.{
  redkey_operation_total, redkey_reconcile_stage_errors, redkey_config_creations,
  redkey_cleanup_deleted_configs, redkey_robin_deployment_changes, Collectors, GaugeVec,
  HistogramVec, CounterVec,
}

-- The runs that `RetryOnConflict` may make of `fn`: another one only after a conflict.
pub data Retried {S A E : Type 0} (is_conflict : E → Bool) (fn : S → Result E A × S)
    : S → Result E A × S → Type 0 where
  last : {s : S} {r : Result E A × S} → fn s ≡ r → Retried is_conflict fn s r
  again :
      {s : S} {r : Result E A × S} (e : E) (s' : S)
      → fn s ≡ (err e, s')
      → is_conflict e ≡ true
      → Retried is_conflict fn s' r
      → Retried is_conflict fn s r

-- The parts of a condition that do not depend on when it was set.
abbrev pub Reading : Type 0
Reading = String × String × String

module _ {T : Types} (K : Kube T) where
  -- What `FindStatusCondition` finds: status, reason and message.
  abbrev pub reading : List (Condition T) → String → Option Reading
  reading cs kind = elim (K.find_status_condition cs kind) [
    | none ↦ none
    | some c ↦ some (c.status, c.reason, c.message)
  ]

  pub record RetryLaw : Type 1 where
    pub retried :
        {S A E : Type 0} (is_conflict : E → Bool) (fn : S → Result E A × S) (s : S)
        → Retried is_conflict fn s (K.retry_on_conflict is_conflict fn s)

  -- A condition that is set is found again, and no other is touched.
  pub record ConditionLaws : Type 0 where
    pub reading-set :
        (t : Time) (cs : List (Condition T)) (c : Condition T) (kind : String)
        → reading (K.set_status_condition t cs c) kind
          ≡ (if kind == c.kind then some (c.status, c.reason, c.message) else reading cs kind)
    pub reading-nil : (kind : String) → reading [] kind ≡ none

  -- Semantic equality does not tell a nil map from an empty one, nor an object from itself.
  pub record EqualityLaws : Type 1 where
    pub deep_equal_maps-iff : (m n : GoMap String) → (K.deep_equal_maps m n ≡ true) ↔ Same m n
    pub deep_equal_refl : {A : Type 0} (a : A) → K.deep_equal a a ≡ true
    pub deep_derivative_refl : {A : Type 0} (a : A) → K.deep_derivative a a ≡ true

  -- An owner reference is all that `SetControllerReference` changes.
  pub record OwnerLaw : Type 0 where
    pub keeps :
        (owner m m' : ObjectMeta T)
        → K.set_controller_reference owner m ≡ ok m'
        → (m'.name ≡ m.name)
          × (m'.namespace ≡ m.namespace)
          × (m'.labels ≡ m.labels)
          × (m'.annotations ≡ m.annotations)

-- The equality of gauge vectors.
abbrev pub same_vec : GaugeVec → GaugeVec → Bool
same_vec GaugeVec.redkey_phase GaugeVec.redkey_phase = true
same_vec GaugeVec.redkey_config_phase GaugeVec.redkey_config_phase = true
same_vec GaugeVec.redkey_operation_in_progress GaugeVec.redkey_operation_in_progress = true
same_vec _ _ = false

-- A gauge holds what was last set, until its series is deleted. The other calls leave it alone.
pub record GaugeLaws (C : Collectors) : Type 0 where
  pub gauge-set :
      (v u : GaugeVec) (ns name third ns' name' third' : String) (x : ℕ) (r : C.Registry)
      → C.gauge u ns' name' third' (C.set_gauge v ns name third x r) ≡ (
          if same_vec u v && (ns' == ns && (name' == name && third' == third))
          then some x
          else C.gauge u ns' name' third' r)
  pub gauge-delete :
      (v u : GaugeVec) (ns name ns' name' third' : String) (r : C.Registry)
      → C.gauge u ns' name' third' (C.delete_partial_match v ns name r) ≡ (
          if same_vec u v && (ns' == ns && name' == name)
          then none
          else C.gauge u ns' name' third' r)
  pub gauge-inc :
      (v : CounterVec) (labels : List String) (u : GaugeVec) (ns name third : String)
      (r : C.Registry)
      → C.gauge u ns name third (C.inc v labels r) ≡ C.gauge u ns name third r
  pub gauge-observe :
      (v : HistogramVec) (labels : List String) (d : Time) (u : GaugeVec) (ns name third : String)
      (r : C.Registry)
      → C.gauge u ns name third (C.observe v labels d r) ≡ C.gauge u ns name third r

abbrev pub same_counter : CounterVec → CounterVec → Bool
same_counter redkey_operation_total redkey_operation_total = true
same_counter redkey_reconcile_stage_errors redkey_reconcile_stage_errors = true
same_counter redkey_config_creations redkey_config_creations = true
same_counter redkey_cleanup_deleted_configs redkey_cleanup_deleted_configs = true
same_counter redkey_robin_deployment_changes redkey_robin_deployment_changes = true
same_counter _ _ = false

abbrev pub same_labels : List String → List String → Bool
same_labels [] [] = true
same_labels [] (_ ∷ _) = false
same_labels (_ ∷ _) [] = false
same_labels (a ∷ rest) (b ∷ rest') = a == b && same_labels rest rest'

-- A counter counts its increments. The other calls leave it alone.
pub record CounterLaws (C : Collectors) : Type 0 where
  pub counter-inc :
      (v u : CounterVec) (labels labels' : List String) (r : C.Registry)
      → C.counter u labels' (C.inc v labels r) ≡ (
          if same_counter u v && same_labels labels' labels
          then suc (C.counter u labels' r)
          else C.counter u labels' r)
  pub counter-observe :
      (v : HistogramVec) (labels : List String) (d : Time) (u : CounterVec) (labels' : List String)
      (r : C.Registry)
      → C.counter u labels' (C.observe v labels d r) ≡ C.counter u labels' r
