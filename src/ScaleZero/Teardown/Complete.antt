-- ===== src/ScaleZero/Teardown/Complete.antt =====
-- What the parts of the teardown have sent when they succeed.
use redkey_operator.Common.{String, List, [], ◌∷◌, ◌≡◌, refl, map}
use redkey_operator.Api.Types.{Types, Time}
use redkey_operator.Api.Meta.{NamespacedName}
use redkey_operator.Api.Config.{RedkeyConfig}
use redkey_operator.Api.Redkey.{Redkey}
use redkey_operator.Kube.Client.{
  Write, Kind, delete, update_status, ok, err, config, deployment, role_binding, role,
  service_account, wrapped,
}
use redkey_operator.Kube.Action.{Env, not_found}
use redkey_operator.Kube.Trace.{
  Trace, Silent, Only, Trace-bind, Trace-pure, Trace-fail, Trace-attempt-send, Trace-read,
  Trace-send_status, Trace-wrap_error, Trace-if, Trace-clock,
}
use redkey_operator.Robin.Merge.{cluster_label}
use redkey_operator.Robin.Ensure.{robin_key}
use redkey_operator.Config.Cleanup.{config_key}
use redkey_operator.ScaleZero.Teardown.{
  delete_if_found, delete_robin_deployment, delete_rbac_objects, delete_rbac, delete_configs,
  delete_all_configs, scaled_to_zero_status, update_status_scaled_to_zero,
}

module _ {T : Types} (K : Env T) where
  delete_if_found-Trace :
      (text : String) (kind : Kind) (key : NamespacedName)
      → Trace (delete_if_found K text kind key) (Only (delete kind key))
  unfolding delete_if_found
  delete_if_found-Trace text kind key =
      Trace-bind (Only (delete kind key)) (λ a. Silent) (Only (delete kind key))
        (Trace-attempt-send (delete kind key))
        (elim [
          | ok u ↦ Trace-pure tt Silent refl
          | err e ↦
              Trace-if (not_found K e) Silent (Trace-pure tt Silent refl)
                (Trace-fail (wrapped text e) Silent)
        ])
        (λ a b ws vs e f. rw (e, f) refl)

  pub delete_robin_deployment-Trace :
      (cluster : Redkey T)
      → Trace (delete_robin_deployment K cluster) (Only (delete deployment (robin_key cluster)))
  unfolding delete_robin_deployment
  delete_robin_deployment-Trace cluster = delete_if_found-Trace _ deployment (robin_key cluster)

  delete_rbac_objects-Trace :
      (key : NamespacedName) (kinds : List Kind)
      → Trace (delete_rbac_objects K key kinds) (λ u ws. ws ≡ map (λ kind. delete kind key) kinds)
  unfolding delete_rbac_objects
  delete_rbac_objects-Trace key [] = Trace-pure tt _ refl
  delete_rbac_objects-Trace key (kind ∷ kinds) =
      Trace-bind (Only (delete kind key)) (λ a u ws. ws ≡ map (λ k. delete k key) kinds) _
        (delete_if_found-Trace _ kind key) (λ a. delete_rbac_objects-Trace key kinds)
        (λ a b ws vs e f. rw (e, f) refl)

  pub delete_rbac-Trace :
      (cluster : Redkey T)
      → Trace (delete_rbac K cluster) (λ u ws.
        ws
        ≡ delete role_binding (robin_key cluster)
          ∷ delete role (robin_key cluster)
          ∷ delete service_account (robin_key cluster)
          ∷ [])
  unfolding delete_rbac
  delete_rbac-Trace cluster =
      delete_rbac_objects-Trace (robin_key cluster) (role_binding ∷ role ∷ service_account ∷ [])

  abbrev pub deletions : List (RedkeyConfig T) → List (Write T)
  deletions = map (λ c. delete config (config_key c))

  delete_configs-Trace :
      (configs : List (RedkeyConfig T))
      → Trace (delete_configs K configs) (λ u ws. ws ≡ deletions configs)
  unfolding delete_configs
  delete_configs-Trace [] = Trace-pure tt _ refl
  delete_configs-Trace (c ∷ configs) =
      Trace-bind (Only (delete config (config_key c))) (λ a u ws. ws ≡ deletions configs) _
        (delete_if_found-Trace _ config (config_key c)) (λ a. delete_configs-Trace configs)
        (λ a b ws vs e f. rw (e, f) refl)

  -- The configs that the server lists for a cluster at some moment.
  abbrev pub Listed : Redkey T → List (RedkeyConfig T) → Type 0
  Listed cluster items =
      (w : K.World) × ((K.list_configs cluster.meta.namespace cluster_label cluster.meta.name w).0
        ≡ ok items)

  pub delete_all_configs-Trace :
      (cluster : Redkey T)
      → Trace
          (delete_all_configs K cluster)
          (λ u ws. (items : List (RedkeyConfig T)) × Listed cluster items × (ws ≡ deletions items))
  unfolding delete_all_configs
  delete_all_configs-Trace cluster =
      Trace-bind (λ items ws. Listed cluster items × (ws ≡ [])) (λ items u ws. ws ≡ deletions items)
        _ (Trace-wrap_error _ _ _ (Trace-read _)) (λ items. delete_configs-Trace items)
        (λ items b ws vs e f. (items, e.0, rw (e.1, f) refl))

  pub update_status_scaled_to_zero-Trace :
      (cluster : Redkey T)
      → Trace (update_status_scaled_to_zero K cluster) (λ a ws.
        (t : Time) × (ws
          ≡ update_status (record cluster { status = scaled_to_zero_status K.kube t cluster })
            ∷ []))
  unfolding update_status_scaled_to_zero
  update_status_scaled_to_zero-Trace cluster =
      Trace-bind Silent
        (λ t a ws.
          Only (update_status (record cluster { status = scaled_to_zero_status K.kube t cluster }))
            a ws)
        _ Trace-clock (λ t. Trace-send_status _) (λ t b ws vs e f. (t, rw (e, f) refl))
