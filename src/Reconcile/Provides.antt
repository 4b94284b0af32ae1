-- ===== src/Reconcile/Provides.antt =====
-- A reconcile of a cluster with primaries leaves Robin's objects on the server.
use redkey_operator.Common.{Bool, true, false, some, List, [], ◌∷◌, ◌++◌, ◌≡◌, refl, ap, ◌∙◌, All}
use redkey_operator.Common.Int.{pos, eqb_ℤ}
use redkey_operator.Api.Types.{Types, Time}
use redkey_operator.Api.Meta.{NamespacedName}
use redkey_operator.Api.Redkey.{Redkey}
use redkey_operator.Api.Workload.{ServiceAccount, Role, RoleBinding, Deployment}
use redkey_operator.Kube.Client.{
  ok, Kind, Write, service_account, role, role_binding, deployment, config,
}
use redkey_operator.Kube.Laws.{RetryLaw, OwnerLaw}
use redkey_operator.Kube.Action.{Env, State, Action, ◌>>=◌}
use redkey_operator.Kube.Does.{Does, Does-bind, Does-then, Does-weaken}
use redkey_operator.Kube.Willing.{Willing, Allows, Does-Sends}
use redkey_operator.Kube.Store.{Store, same_kind, apply_write, replay, replay-append}
use redkey_operator.Kube.Store.Known.{Leads, Known, with_kind}
use redkey_operator.Robin.Ensure.{robin_key, ensure_rbac}
use redkey_operator.Robin.Ensure.Provides.{
  ensure_service_account-More, ensure_role-More, ensure_role_binding-More,
  ensure_robin_deployment-More,
}
use redkey_operator.Config.Sequence.{select_active_config}
use redkey_operator.Config.Granted.{list_configs-granted}
use redkey_operator.Metrics.Record.Total.{record_redkey_metrics-Quiet}
use redkey_operator.Reconcile.{reconcile_running, reconcile}
use redkey_operator.Reconcile.Fetched.{reconcile-Does}
use redkey_operator.Reconcile.Granted.{stage-Does, ensure_config-granted, settle_configs-granted}

-- The server finds one of Robin's objects only if it is there.
pub record Truthful {T : Types} (K : Env T) (cluster : Redkey T) (there : Store) : Type 0 where
  pub service_account_there :
      (w : K.World) (o : ServiceAccount T)
      → (K.get_service_account (robin_key cluster) w).0 ≡ ok o
      → there service_account (robin_key cluster) ≡ true
  pub role_there :
      (w : K.World) (o : Role T)
      → (K.get_role (robin_key cluster) w).0 ≡ ok o
      → there role (robin_key cluster) ≡ true
  pub role_binding_there :
      (w : K.World) (o : RoleBinding T)
      → (K.get_role_binding (robin_key cluster) w).0 ≡ ok o
      → there role_binding (robin_key cluster) ≡ true
  pub deployment_there :
      (w : K.World) (o : Deployment T)
      → (K.get_deployment (robin_key cluster) w).0 ≡ ok o
      → there deployment (robin_key cluster) ≡ true

-- Robin's four objects are there.
abbrev pub Provided : {T : Types} → Redkey T → Store → Type 0
Provided cluster store =
    (store service_account (robin_key cluster) ≡ true)
    × (store role (robin_key cluster) ≡ true)
    × (store role_binding (robin_key cluster) ≡ true)
    × (store deployment (robin_key cluster) ≡ true)

abbrev Has : {T : Types} → Redkey T → (Kind → Bool) → Store → Type 0
Has cluster = Known (robin_key cluster)

abbrev with_rbac : (Kind → Bool) → Kind → Bool
with_rbac b = with_kind role_binding (with_kind role (with_kind service_account b))

-- The objects of Robin that are there.
abbrev found_at : {T : Types} → Redkey T → Store → Kind → Bool
found_at cluster there k = there k (robin_key cluster)

-- A write that changes configs at most.
abbrev ConfigsOnly : {T : Types} → Write T → Type 0
ConfigsOnly w =
    (store : Store) (kind : Kind) (key : NamespacedName)
    → same_kind kind config ≡ false
    → apply_write w store kind key ≡ store kind key

configs_only : {T : Types} → Allows {T = T} ConfigsOnly
configs_only = record {
  create_config = λ c store kind key h. rw h refl;
  delete_config = λ k store kind key h. rw h refl;
  status = λ c store kind key h. refl;
}

replay-ConfigsOnly :
    {T : Types} (ws : List (Write T)) (store : Store) (kind : Kind) (key : NamespacedName)
    → All ConfigsOnly ws
    → same_kind kind config ≡ false
    → replay ws store kind key ≡ store kind key
replay-ConfigsOnly [] store kind key all h = refl
replay-ConfigsOnly (w ∷ ws) store kind key (first, all) h =
    replay-ConfigsOnly ws (apply_write w store) kind key all h ∙ first store kind key h

Leads-then :
    {T : Types} {K : Env T} {A B : Type 0} {m : Action K A} {f : A → Action K B}
    (P R U : Store → Type 0)
    → Does m (λ a ws. (store : Store) → P store → R (replay ws store))
    → ((a : A) → Does (f a) (λ b ws. (store : Store) → R store → U (replay ws store)))
    → Does (m >>= f) (λ b ws. (store : Store) → P store → U (replay ws store))
Leads-then P R U first second =
    Does-bind (Leads P R) (λ a. Leads R U) (Leads P U) first (λ a ws h. second a)
      (λ a b ws vs f g store p. rw (replay-append ws vs store) (g _ (f store p)))

module _ {T : Types} {K : Env T} (willing : Willing K.kube) (law : RetryLaw K.kube)
    (owner : OwnerLaw K.kube) (cluster : Redkey T) (there : Store)
    (truthful : Truthful K cluster there) where
  rbac :
      (b : Kind → Bool)
      → ((k : Kind) → there k (robin_key cluster) ≡ true → b k ≡ true)
      → Does (ensure_rbac K cluster) (Leads (Has cluster b) (Has cluster (with_rbac b)))
  unfolding ensure_rbac
  rbac b known =
      let b1 = with_kind service_account b in
      let b2 = with_kind role b1 in
      Leads-then (Has cluster b) (Has cluster b1) (Has cluster (with_rbac b))
        (ensure_service_account-More willing owner cluster b
          (λ w o e. known service_account (truthful.service_account_there w o e)))
        (λ u.
          Leads-then (Has cluster b1) (Has cluster b2) (Has cluster (with_rbac b))
            (ensure_role-More willing owner cluster b1
              (λ w o e. known role (truthful.role_there w o e)))
            (λ u.
              ensure_role_binding-More willing owner cluster b2
                (λ w o e. known role_binding (truthful.role_binding_there w o e))))

  running :
      Does
        (reconcile_running K cluster)
        (Leads (Has cluster (found_at cluster there)) (Provided cluster))
  unfolding reconcile_running
  running =
      let b = found_at cluster there in
      let b3 = with_rbac b in
      Leads-then (Has cluster b) (Has cluster b3) (Provided cluster)
        (stage-Does _ _ _ (rbac b (λ k h. h)))
        (λ u.
          Leads-then (Has cluster b3) (Has cluster (with_kind deployment b3)) (Provided cluster)
            (stage-Does _ _ _ (
              ensure_robin_deployment-More willing owner cluster b3
                (λ w o e. truthful.deployment_there w o e)))
            (λ u.
              Does-weaken (λ u ws. All ConfigsOnly ws) _
                (λ u ws all store known. (
                  replay-ConfigsOnly ws store service_account _ all refl
                      ∙ known service_account refl,
                  replay-ConfigsOnly ws store role _ all refl ∙ known role refl,
                  replay-ConfigsOnly ws store role_binding _ all refl ∙ known role_binding refl,
                  replay-ConfigsOnly ws store deployment _ all refl ∙ known deployment refl,
                ))
                (Does-then (stage-Does _ _ _ (list_configs-granted willing configs_only cluster))
                  λ listed.
                    Does-then (ensure_config-granted willing law configs_only cluster listed)
                      λ configs.
                        Does-then (settle_configs-granted willing law configs_only cluster configs)
                          λ settled. Does-Sends (
                            record_redkey_metrics-Quiet K settled.0
                              (select_active_config settled.1)))))

  -- On a server that grants every request, answers every read of the key with one Redkey with
  -- primaries, and finds Robin's objects only where they are: one reconcile succeeds and asks to
  -- be called again, and its writes leave Robin's service account, role, role binding and
  -- Deployment in place, whichever of them was missing before. It is assumed that RetryOnConflict
  -- runs its function again only after a conflict, and that SetControllerReference keeps the name
  -- and the namespace.
  pub reconcile-provides :
      (interval : Time) (key : NamespacedName) (s : State K)
      → ((w : K.World) → (K.get_redkey key w).0 ≡ ok cluster)
      → eqb_ℤ cluster.spec.primaries (pos 0) ≡ false
      → (s' : State K) × (ws : List (Write T)) × ((reconcile K interval key).run s
          ≡ (ok (some interval), s'))
        × (s'.sent ≡ s.sent ++ ws)
        × Provided cluster (replay ws there)
  reconcile-provides interval key s fetched some_primaries =
      let (again, s', ws, ran, eq, (same, leads)) =
        (reconcile-Does cluster (Leads (Has cluster (found_at cluster there)) (Provided cluster) tt)
            interval key fetched (rw some_primaries running)).at
          s in
      (s', ws, ran ∙ ap (λ x. (ok x, s')) same, eq, leads there (λ k h. h))
