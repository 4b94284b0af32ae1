-- ===== src/ScaleZero/Cases/KeepsRobin.antt =====
-- Robin is torn down only when it has finished a config without primaries.
use redkey_operator.Common.{Bool, true, false, Option, none, some, List, ◌≡◌, refl, ◌&&◌, arith}
use redkey_operator.Common.Int.{pos, eqb_ℤ}
use redkey_operator.Api.Types.{Types}
use redkey_operator.Api.Config.{RedkeyConfig}
use redkey_operator.Api.Redkey.{Redkey}
use redkey_operator.Kube.Client.{
  Write, create, patch, delete, update_status, deployment, role, service_account, role_binding,
  config,
}
use redkey_operator.Kube.Action.{Env}
use redkey_operator.Kube.Laws.{RetryLaw}
use redkey_operator.Kube.Keeps.{Keeps, Any, Keeps-then, Keeps-if, Keeps-pure}
use redkey_operator.Kube.Sent.{Sent}
use redkey_operator.Robin.Ensure.Writes.{Ensures, ensure_rbac-Sent, ensure_robin_deployment-Sent}
use redkey_operator.Config.Sequence.{is_applied}
use redkey_operator.Config.Create.Writes.{create_new_config-Sent}
use redkey_operator.Status.Aggregate.Writes.{aggregate_status-Sent}
use redkey_operator.ScaleZero.Teardown.Writes.{update_status_scaled_to_zero-Sent}
use redkey_operator.ScaleZero.Cases.{
  request_scale_to_zero, await_scale_to_zero, scale_to_zero_cases,
}

-- A write that leaves Robin's Deployment, Role and ServiceAccount in place.
abbrev pub LeavesRobin : {T : Types} → Write T → Type 0
LeavesRobin (delete deployment key) = ⊥
LeavesRobin (delete role key) = ⊥
LeavesRobin (delete service_account key) = ⊥
LeavesRobin (delete role_binding key) = Unit
LeavesRobin (delete config key) = Unit
LeavesRobin (create o) = Unit
LeavesRobin (patch old new) = Unit
LeavesRobin (update_status c) = Unit

-- Robin has applied a config without primaries.
abbrev pub is_done : {T : Types} → RedkeyConfig T → Bool
is_done c = eqb_ℤ c.spec.primaries (pos 0) && is_applied c

both_true : {a b : Bool} → a ≡ true → b ≡ true → (a && b) ≡ false → ⊥
both_true p q h = ground arith

module _ {T : Types} (K : Env T) (law : RetryLaw K.kube) (cluster : Redkey T) where
  pub Ensures-LeavesRobin : (w : Write T) → Ensures cluster w → LeavesRobin w
  Ensures-LeavesRobin (create o) h = tt
  Ensures-LeavesRobin (patch old new) h = tt
  Ensures-LeavesRobin (update_status c) h = tt
  Ensures-LeavesRobin (delete deployment key) h = h
  Ensures-LeavesRobin (delete role key) h = h
  Ensures-LeavesRobin (delete service_account key) h = h
  Ensures-LeavesRobin (delete role_binding key) h = tt
  Ensures-LeavesRobin (delete config key) h = tt

  request_scale_to_zero-LeavesRobin :
      (latest : RedkeyConfig T)
      → Keeps (Sent LeavesRobin) (request_scale_to_zero K cluster latest) Any
  unfolding request_scale_to_zero
  request_scale_to_zero-LeavesRobin latest =
      Keeps-then _ _ (ensure_rbac-Sent K cluster LeavesRobin Ensures-LeavesRobin) λ _.
        Keeps-then _ _ (ensure_robin_deployment-Sent K cluster LeavesRobin Ensures-LeavesRobin) λ _.
          Keeps-then _ _ (create_new_config-Sent K cluster (some latest) LeavesRobin (λ c h. tt))
            λ _. Keeps-pure cluster tt

  await_scale_to_zero-LeavesRobin :
      (configs : List (RedkeyConfig T))
      → Keeps (Sent LeavesRobin) (await_scale_to_zero K cluster configs) Any
  unfolding await_scale_to_zero
  await_scale_to_zero-LeavesRobin configs =
      Keeps-then _ _ (ensure_rbac-Sent K cluster LeavesRobin Ensures-LeavesRobin) λ _.
        Keeps-then _ _ (ensure_robin_deployment-Sent K cluster LeavesRobin Ensures-LeavesRobin)
          λ _. aggregate_status-Sent K law LeavesRobin (λ c. tt) cluster configs

  -- Unless the newest config has no primaries and is Applied, every case leaves Robin in place.
  pub scale_to_zero_cases-LeavesRobin :
      (configs : List (RedkeyConfig T)) (latest : Option (RedkeyConfig T))
      → ((c : RedkeyConfig T) → latest ≡ some c → is_done c ≡ false)
      → Keeps (Sent LeavesRobin) (scale_to_zero_cases K cluster configs latest) Any
  unfolding scale_to_zero_cases
  scale_to_zero_cases-LeavesRobin configs none h =
      update_status_scaled_to_zero-Sent K LeavesRobin (λ c. tt) cluster
  scale_to_zero_cases-LeavesRobin configs (some latest) h =
      Keeps-if (eqb_ℤ latest.spec.primaries (pos 0)) _ _
        (λ zero_primaries.
          Keeps-if (is_applied latest) _ _
            (λ applied. absurd (both_true zero_primaries applied (h latest refl)))
            (λ _. await_scale_to_zero-LeavesRobin configs))
        (λ _. request_scale_to_zero-LeavesRobin latest)
