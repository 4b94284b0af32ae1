-- ===== src/Metrics/Trackers.antt =====
-- metrics.go: opTracker and readyTracker. A method holds its tracker's mutex throughout, so it is one
-- step.
pub mod Silent
pub mod Total
pub mod Operations
pub mod Counts
use redkey_operator.Common.{
  String, Bool, true, false, not, ◌&&◌, ◌||◌, ◌==◌, Option, none, some, [], ◌∷◌, if◌then◌else◌,
}
use redkey_operator.Common.Int.{◌-ℤ◌}
use redkey_operator.Api.Types.{Types, Time}
use redkey_operator.Api.Meta.{NamespacedName}
use redkey_operator.Api.Config.{cluster_status_ready, cluster_phase_error}
use redkey_operator.Api.Redkey.{phase_ready, phase_error}
use redkey_operator.Kube.Client.{ok}
use redkey_operator.Kube.Collectors.{redkey_operation_duration, redkey_operation_total}
use redkey_operator.Kube.Action.{
  Env, State, Action, ActiveOperation, ◌>>=◌, ◌>>◌, pure, clock, emit, same_key,
}

-- `m[k] = v`, and `delete(m, k)` for `none`.
abbrev pub update {ℓ} :
    {V : Type ℓ}
    → NamespacedName
    → Option V
    → (NamespacedName → Option V)
    → NamespacedName
    → Option V
update k v m j = if same_key j k then v else m j

-- Whether a status means that an operation is under way.
unfoldable pub in_operation : String → Bool
in_operation status =
    not (status == "")
    && (not (status == cluster_status_ready) && not (status == cluster_phase_error))

unfoldable pub operation_result : String → String → String
operation_result status phase =
    if phase == phase_error || status == cluster_phase_error then "error" else "success"

module _ {T : Types} (K : Env T) where
  abbrev set_active : NamespacedName → Option ActiveOperation → Action K (Unit {0})
  set_active key op = record { run = λ s. (ok tt, record s { active = update key op s.active }) }

  -- `t.active[key] = activeOperation{operation: status, startedAt: time.Now()}`
  start_operation : NamespacedName → String → Action K (Unit {0})
  start_operation key status = do
    t ← clock
    set_active key (some (record { operation = status; started_at = t }))

  -- The duration and the result of the operation that ends.
  finish_operation : ActiveOperation → String → Action K (Unit {0})
  finish_operation current result = do
    t ← clock
    emit (K.observe redkey_operation_duration (current.operation ∷ []) (t -ℤ current.started_at))
    emit (K.inc redkey_operation_total (current.operation ∷ result ∷ []))

  -- The `switch` of `observe`, on what the map holds under the key.
  observe_tracked : NamespacedName → String → String → Option ActiveOperation → Action K (Unit {0})
  unfolding in_operation operation_result start_operation finish_operation
  observe_tracked key status phase none =
      if in_operation status then start_operation key status else pure tt
  observe_tracked key status phase (some current) =
      if in_operation status
      then (if current.operation == status
          then pure tt
          else (finish_operation current "superseded" >> start_operation key status))
      else (finish_operation current (operation_result status phase) >> set_active key none)

  unfoldable pub observe_operation : NamespacedName → String → String → Action K (Unit {0})
  unfolding observe_tracked
  observe_operation key status phase = record {
    run = λ s. (observe_tracked key status phase (s.active key)).run s;
  }

  unfoldable pub forget_operation : NamespacedName → Action K (Unit {0})
  forget_operation key = set_active key none

  -- A key that is missing reads as "".
  abbrev previous_phase : Option String → String
  previous_phase none = ""
  previous_phase (some phase) = phase

  unfoldable pub entered_ready : NamespacedName → String → Action K Bool
  entered_ready key phase = record {
    run = λ s. (
      ok (phase == phase_ready && not (previous_phase (s.last_phase key) == phase_ready)),
      record s { last_phase = update key (some phase) s.last_phase },
    );
  }

  unfoldable pub forget_readiness : NamespacedName → Action K (Unit {0})
  forget_readiness key = record {
    run = λ s. (ok tt, record s { last_phase = update key none s.last_phase });
  }
