-- ===== src/Metrics/Record/Total.antt =====
-- The metrics never fail, send nothing and leave the world as it was, but for the clock.
use redkey_operator.Common.{Option, none, some, ◌≡◌, refl}
use redkey_operator.Api.Types.{Types}
use redkey_operator.Api.Meta.{NamespacedName}
use redkey_operator.Api.Config.{RedkeyConfig}
use redkey_operator.Api.Redkey.{Redkey}
use redkey_operator.Kube.Action.{Env}
use redkey_operator.Kube.Does.{Does, Quiet}
use redkey_operator.Kube.Runs.Still.{Still, still_rules, Does-Still}
use redkey_operator.Metrics.Trackers.Total.{
  observe_operation-Still, forget_operation-Still, entered_ready-Still, forget_readiness-Still,
}
use redkey_operator.Metrics.Record.{record_config, record_redkey_metrics, delete_redkey_metrics}

module _ {T : Types} (K : Env T) {V : Type 0} (view : K.World → V)
    (calm : (w : K.World) → view (K.now w).1 ≡ view w) where
  record_config-Still :
      (cluster : Redkey T) (active : RedkeyConfig T) → Still view (record_config K cluster active)
  unfolding record_config
  record_config-Still cluster active = search (still_rules, calm, entered_ready-Still) depth 9

  pub record_redkey_metrics-Still :
      (cluster : Redkey T) (active : Option (RedkeyConfig T))
      → Still view (record_redkey_metrics K cluster active)
  unfolding record_redkey_metrics
  record_redkey_metrics-Still cluster none =
      search (still_rules, calm, observe_operation-Still) depth 9
  record_redkey_metrics-Still cluster (some active) =
      search (still_rules, calm, observe_operation-Still, record_config-Still) depth 9

  pub delete_redkey_metrics-Still :
      (key : NamespacedName) → Still view (delete_redkey_metrics K key)
  unfolding delete_redkey_metrics
  delete_redkey_metrics-Still key =
      search (still_rules, calm, forget_operation-Still, forget_readiness-Still) depth 9

module _ {T : Types} (K : Env T) where
  pub record_redkey_metrics-Quiet :
      (cluster : Redkey T) (active : Option (RedkeyConfig T))
      → Does (record_redkey_metrics K cluster active) Quiet
  record_redkey_metrics-Quiet cluster active =
      Does-Still (record_redkey_metrics-Still K (λ w. tt {0}) (λ w. refl) cluster active)
