-- ===== src/Metrics/Trackers/Total.antt =====
-- The trackers never fail, send nothing and leave the world as it was, but for the clock.
use redkey_operator.Common.{String, Option, none, some, refl, ◌≡◌}
use redkey_operator.Api.Types.{Types}
use redkey_operator.Api.Meta.{NamespacedName}
use redkey_operator.Kube.Action.{Env, ActiveOperation}
use redkey_operator.Kube.Runs.Still.{Still, still_rules}
use redkey_operator.Metrics.Trackers.{
  set_active, start_operation, finish_operation, observe_tracked, observe_operation,
  forget_operation, entered_ready, forget_readiness,
}

module _ {T : Types} (K : Env T) {V : Type 0} (view : K.World → V)
    (calm : (w : K.World) → view (K.now w).1 ≡ view w) where
  set_active-Still :
      (key : NamespacedName) (op : Option ActiveOperation) → Still view (set_active K key op)
  set_active-Still key op = record {
    at = λ s. (tt, ((set_active K key op).run s).1, refl, refl, refl);
  }

  start_operation-Still :
      (key : NamespacedName) (status : String) → Still view (start_operation K key status)
  unfolding start_operation
  start_operation-Still key status = search (still_rules, calm, set_active-Still)

  finish_operation-Still :
      (current : ActiveOperation) (result : String) → Still view (finish_operation K current result)
  unfolding finish_operation
  finish_operation-Still current result = search (still_rules, calm)

  observe_tracked-Still :
      (key : NamespacedName) (status phase : String) (tracked : Option ActiveOperation)
      → Still view (observe_tracked K key status phase tracked)
  unfolding observe_tracked
  observe_tracked-Still key status phase none = search (still_rules, start_operation-Still)
  observe_tracked-Still key status phase (some current) =
      search (still_rules, start_operation-Still, finish_operation-Still, set_active-Still)

  pub observe_operation-Still :
      (key : NamespacedName) (status phase : String)
      → Still view (observe_operation K key status phase)
  unfolding observe_operation
  observe_operation-Still key status phase = record {
    at = λ s. (observe_tracked-Still key status phase (s.active key)).at s;
  }

  pub forget_operation-Still : (key : NamespacedName) → Still view (forget_operation K key)
  unfolding forget_operation
  forget_operation-Still key = set_active-Still key none

  pub entered_ready-Still :
      (key : NamespacedName) (phase : String) → Still view (entered_ready K key phase)
  unfolding entered_ready
  entered_ready-Still key phase = record {
    at = λ s. (_, ((entered_ready K key phase).run s).1, refl, refl, refl);
  }

  pub forget_readiness-Still : (key : NamespacedName) → Still view (forget_readiness K key)
  unfolding forget_readiness
  forget_readiness-Still key = record {
    at = λ s. (tt, ((forget_readiness K key).run s).1, refl, refl, refl);
  }
