-- ===== src/Metrics/Trackers/Counts.antt =====
-- The counted operations of a cluster against its history of observed statuses.
use redkey_operator.Common.{ℕ, suc, String, not, ◌&&◌, ◌==◌, List, [], ◌∷◌, if◌then◌else◌}
use redkey_operator.Common.Int.{◌-ℤ◌}
use redkey_operator.Api.Types.{Types, Time}
use redkey_operator.Api.Meta.{NamespacedName}
use redkey_operator.Kube.Collectors.{redkey_operation_total, redkey_operation_duration}
use redkey_operator.Kube.Laws.{CounterLaws}
use redkey_operator.Kube.Action.{Env, State, ActiveOperation}
use redkey_operator.Metrics.Trackers.{in_operation, operation_result, observe_operation}

-- An observation of a cluster: its status and its phase.
abbrev pub Observed : Type 0
Observed = String × String

-- The operations that a history of observations shows to have ended, with their results: an
-- operation ends between two observations of different statuses of which the first names it.
abbrev pub ended_between : Observed → Observed → List Observed → List Observed
ended_between (s, p) (s', p') later =
    if in_operation s && not (s == s')
    then (s, if in_operation s' then "superseded" else operation_result s' p') ∷ later
    else later

abbrev pub ended : Observed → List Observed → List Observed
ended before [] = []
ended before (now ∷ history) = let later = ended now history in ended_between before now later

-- How often an operation ended with a result.
abbrev pub count : String → String → List Observed → ℕ
count op result [] = 0
count op result ((o, r) ∷ rest) =
    let later = count op result rest in if op == o && result == r then suc later else later

module _ {T : Types} (K : Env T) where
  -- The observations of one cluster, one after the other.
  abbrev pub observe_all : NamespacedName → List Observed → State K → State K
  observe_all key [] s = s
  observe_all key ((status, phase) ∷ history) s =
      observe_all key history ((observe_operation K key status phase).run s).1

  module _ (laws : CounterLaws K.collectors) where
    abbrev total : String → String → State K → ℕ
    total op result s = K.counter redkey_operation_total (op ∷ result ∷ []) s.registry

    -- The registry after an operation was finished at a time.
    abbrev finished : ActiveOperation → String → Time → K.Registry → K.Registry
    finished current result t r =
        K.inc redkey_operation_total (current.operation ∷ result ∷ [])
          (K.observe redkey_operation_duration (current.operation ∷ []) (t -ℤ current.started_at) r)
