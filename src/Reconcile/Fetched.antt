-- ===== src/Reconcile/Fetched.antt =====
-- A reconcile on a server that has the Redkey: what its two paths send is what it sends.
use mathlib.Core.List.{append-nil}
use redkey_operator.Common.{none, some, List, [], ◌≡◌, refl, ap, ◌∙◌, if◌then◌else◌}
use redkey_operator.Common.Int.{pos, eqb_ℤ}
use redkey_operator.Api.Types.{Types, Time}
use redkey_operator.Api.Meta.{NamespacedName}
use redkey_operator.Api.Redkey.{Redkey}
use redkey_operator.Kube.Client.{ok, Write}
use redkey_operator.Kube.Action.{Env}
use redkey_operator.Kube.Does.{Does, Does-bind, Does-attempt, Does-read, Does-weaken, Does-pure}
use redkey_operator.Kube.Does.Quiet.{after_quiet, then_quiet}
use redkey_operator.Metrics.Record.Total.{record_redkey_metrics-Quiet}
use redkey_operator.ScaleZero.Cases.{reconcile_scale_to_zero}
use redkey_operator.Reconcile.{reconcile_zero, reconcile_running, reconcile}
use redkey_operator.Reconcile.Granted.{stage-Does}

module _ {T : Types} {K : Env T} (cluster : Redkey T) (P : List (Write T) → Type 0) where
  pub reconcile_zero-Does :
      Does (reconcile_scale_to_zero K cluster) (λ c. P) → Does (reconcile_zero K cluster) (λ u. P)
  unfolding reconcile_zero
  reconcile_zero-Does scaled =
      then_quiet P (stage-Does _ _ _ scaled) (λ updated. record_redkey_metrics-Quiet K updated none)

  pub reconcile-Does :
      (interval : Time) (key : NamespacedName)
      → ((w : K.World) → (K.get_redkey key w).0 ≡ ok cluster)
      → Does
          (if eqb_ℤ cluster.spec.primaries (pos 0)
            then reconcile_zero K cluster
            else reconcile_running K cluster)
          (λ u. P)
      → Does (reconcile K interval key) (λ again ws. (again ≡ some interval) × P ws)
  unfolding reconcile
  reconcile-Does interval key fetched path =
      after_quiet (λ r. r ≡ ok cluster) _
        (Does-weaken _ _ (λ r ws h. (h.1 ∙ ap (λ x. ok x) h.2.0, h.2.1))
          (Does-attempt _ _ (Does-read _ (λ c. c ≡ cluster) (λ w. (cluster, fetched w, refl)))))
        (λ r e. rw e (
          Does-bind (λ u. P) (λ u again ws. (again ≡ some interval) × (ws ≡ [])) _ path
            (λ u ws h. Does-pure (some interval) _ (refl, refl))
            (λ u again ws vs h e. (e.0, rw (e.1, append-nil ws) h))))
