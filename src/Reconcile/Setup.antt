-- ===== src/Reconcile/Setup.antt =====
-- internal/controller/redkey_controller.go: SetupWithManager, what the controller is built from.
use redkey_operator.Common.{String, List, [], ◌∷◌}
use redkey_operator.Common.Int.{ℤ}
use redkey_operator.Api.Types.{Time}
use redkey_operator.Kube.Client.{Kind, config, deployment, service_account, role, role_binding}
use redkey_operator.Reconcile.{controller_options}

-- `RedkeyReconciler`, less the client and the scheme.
pub record RedkeyReconciler : Type 0 where
  pub resync_interval : Time
  pub max_concurrent_reconciles : ℤ

-- What the builder is told: Reconcile is called for the Redkeys, and for the Redkey that owns an
-- object of one of these kinds when that object changes.
pub record ControllerSetup : Type 0 where
  pub reconciler : RedkeyReconciler
  pub owns : List Kind
  pub name : String
  pub max_concurrent : ℤ

unfoldable pub setup_with_manager : RedkeyReconciler → ControllerSetup
unfolding controller_options
setup_with_manager r = record {
  reconciler = r;
  owns = config ∷ deployment ∷ service_account ∷ role ∷ role_binding ∷ [];
  name = "redkey";
  max_concurrent = controller_options r.max_concurrent_reconciles;
}
