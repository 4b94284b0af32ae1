-- ===== src/Robin/Ensure/Writes.antt =====
-- What ensureRBAC and ensureRobinDeployment send.
use redkey_operator.Common.{◌≡◌}
use redkey_operator.Api.Types.{Types}
use redkey_operator.Api.Redkey.{Redkey}
use redkey_operator.Kube.Client.{
  Result, Error, ok, err, Write, create, patch, delete, update_status, of_service_account, of_role,
  of_role_binding, of_deployment, role_binding,
}
use redkey_operator.Kube.Action.{Env, Action, fail}
use redkey_operator.Kube.Keeps.{Keeps, Any, Keeps-fail, Keeps-if, Keeps-then}
use redkey_operator.Kube.Sent.{Sent, sent_rules}
use redkey_operator.Robin.Ensure.{
  create_or, robin_key, ensure_service_account, ensure_role, ensure_role_binding, ensure_rbac,
  ensure_robin_deployment,
}

-- A write that makes or corrects one of Robin's objects. Of the deletions only that of the
-- RoleBinding is one.
abbrev pub Ensures : {T : Types} → Redkey T → Write T → Type 0
Ensures c (create (of_service_account _)) = Unit
Ensures c (create (of_role _)) = Unit
Ensures c (create (of_role_binding _)) = Unit
Ensures c (create (of_deployment _)) = Unit
Ensures c (create _) = ⊥
Ensures c (patch _ _) = Unit
Ensures c (delete role_binding key) = key ≡ robin_key c
Ensures c (delete _ _) = ⊥
Ensures c (update_status _) = ⊥

module _ {T : Types} {K : Env T} {Q : Write T → Type 0} where
  pub create_or-Sent :
      {A : Type 0} (r : Result (Error K.ApiError) A) (missing : Action K (Unit {0}))
      (found : A → Action K (Unit {0}))
      → Keeps (Sent Q) missing Any
      → ((a : A) → Keeps (Sent Q) (found a) Any)
      → Keeps (Sent Q) (create_or K r missing found) Any
  create_or-Sent (ok a) missing found km kf = kf a
  create_or-Sent (err e) missing found km kf =
      Keeps-if _ missing (fail e) (λ h. km) (λ h. Keeps-fail e)

module _ {T : Types} (K : Env T) (c : Redkey T) (Q : Write T → Type 0)
    (allowed : (w : Write T) → Ensures c w → Q w) where
  ensure_service_account-Sent : Keeps (Sent Q) (ensure_service_account K c) Any
  unfolding ensure_service_account
  ensure_service_account-Sent = search (sent_rules, create_or-Sent, allowed, tt) depth 12

  ensure_role-Sent : Keeps (Sent Q) (ensure_role K c) Any
  unfolding ensure_role
  ensure_role-Sent = search (sent_rules, create_or-Sent, allowed, tt) depth 12

  ensure_role_binding-Sent : Keeps (Sent Q) (ensure_role_binding K c) Any
  unfolding ensure_role_binding
  ensure_role_binding-Sent = search (sent_rules, create_or-Sent, allowed, tt) depth 12

  -- `ensureRBAC` sends nothing else, whatever the server answers.
  pub ensure_rbac-Sent : Keeps (Sent Q) (ensure_rbac K c) Any
  unfolding ensure_rbac
  ensure_rbac-Sent =
      Keeps-then _ _ ensure_service_account-Sent
        λ _. Keeps-then _ _ ensure_role-Sent λ _. ensure_role_binding-Sent

  pub ensure_robin_deployment-Sent : Keeps (Sent Q) (ensure_robin_deployment K c) Any
  unfolding ensure_robin_deployment
  ensure_robin_deployment-Sent = search (sent_rules, create_or-Sent, allowed, tt) depth 12
