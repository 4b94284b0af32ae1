-- ===== src/ScaleZero/Cases/RemovesAll.antt =====
-- What a teardown that succeeds has sent.
pub mod Store
use redkey_operator.Common.{List, [], ◌∷◌, ◌++◌, ◌≡◌, refl, ap, ◌∙◌}
use redkey_operator.Api.Types.{Types, Time}
use redkey_operator.Api.Config.{RedkeyConfig}
use redkey_operator.Api.Redkey.{Redkey}
use redkey_operator.Kube.Client.{
  Write, delete, update_status, ok, deployment, role_binding, role, service_account,
}
use redkey_operator.Kube.Action.{Env, State}
use redkey_operator.Kube.Trace.{Trace, Only, Trace-bind}
use redkey_operator.Robin.Ensure.{robin_key}
use redkey_operator.ScaleZero.Teardown.{scaled_to_zero_status}
use redkey_operator.ScaleZero.Teardown.Complete.{
  deletions, Listed, delete_robin_deployment-Trace, delete_rbac-Trace, delete_all_configs-Trace,
  update_status_scaled_to_zero-Trace,
}
use redkey_operator.ScaleZero.Cases.{tear_down}

module _ {T : Types} (K : Env T) where
  -- Robin's Deployment first, then its RBAC objects, then every listed config, then the status.
  abbrev pub teardown_writes : Redkey T → List (RedkeyConfig T) → Time → List (Write T)
  teardown_writes cluster items t =
      delete deployment (robin_key cluster)
        ∷ delete role_binding (robin_key cluster)
        ∷ delete role (robin_key cluster)
        ∷ delete service_account (robin_key cluster)
        ∷ deletions K items
      ++ update_status (record cluster { status = scaled_to_zero_status K.kube t cluster }) ∷ []

  pub tear_down-Trace :
      (cluster : Redkey T)
      → Trace (tear_down K cluster) (λ a ws.
        (items : List (RedkeyConfig T)) × (t : Time) × Listed K cluster items
        × (ws ≡ teardown_writes cluster items t))
  unfolding tear_down
  tear_down-Trace cluster =
      Trace-bind (Only (delete deployment (robin_key cluster)))
        (λ u1 a ws.
          (items : List (RedkeyConfig T)) × (t : Time) × Listed K cluster items
          × (ws
              ≡ delete role_binding (robin_key cluster)
                  ∷ delete role (robin_key cluster)
                  ∷ delete service_account (robin_key cluster)
                  ∷ deletions K items
                ++ update_status
                    (record cluster { status = scaled_to_zero_status K.kube t cluster })
                  ∷ []))
        _ (delete_robin_deployment-Trace K cluster)
        (λ u1.
          Trace-bind _
            (λ u2 a ws.
              (items : List (RedkeyConfig T)) × (t : Time) × Listed K cluster items
              × (ws
                  ≡ deletions K items
                    ++ update_status
                        (record cluster { status = scaled_to_zero_status K.kube t cluster })
                      ∷ []))
            _ (delete_rbac-Trace K cluster)
            (λ u2.
              Trace-bind _
                (λ u3 a ws.
                  (t : Time) × (ws
                    ≡ update_status
                        (record cluster { status = scaled_to_zero_status K.kube t cluster })
                      ∷ []))
                _ (delete_all_configs-Trace K cluster)
                (λ u3. update_status_scaled_to_zero-Trace K cluster)
                (λ a b ws vs e f. (e.0, f.0, e.1, rw (e.2, f.1) refl)))
            (λ a b ws vs e f. (f.0, f.1, f.2, rw (e, f.3) refl)))
        (λ a b ws vs e f. (f.0, f.1, f.2, rw (e, f.3) refl))

  -- A teardown that succeeds has sent these writes in this order and no other: the deletions of
  -- Robin's Deployment, RoleBinding, Role and ServiceAccount, the deletion of each config that the
  -- server listed, and the status of a cluster that is scaled to zero.
  pub tear_down-writes :
      (cluster : Redkey T) (s : State K) (a : Redkey T) (s' : State K)
      → (tear_down K cluster).run s ≡ (ok a, s')
      → (items : List (RedkeyConfig T)) × (t : Time) × Listed K cluster items
        × (s'.sent ≡ s.sent ++ teardown_writes cluster items t)
  tear_down-writes cluster s a s' h =
      let (ws, eq, (items, t, listed, same)) = (tear_down-Trace cluster).at s a s' h in
      (items, t, listed, eq ∙ ap (λ xs. s.sent ++ xs) same)
