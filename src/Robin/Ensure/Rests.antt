-- ===== src/Robin/Ensure/Rests.antt =====
-- ensureRBAC and ensureRobinDeployment where Robin's four objects are right: they send nothing.
use mathlib.Core.Option.{some-injective}
use redkey_operator.Common.{Bool, true, false, Option, List, [], ◌≡◌, refl, sym, subst, ◌∙◌}
use redkey_operator.Api.Types.{Types}
use redkey_operator.Api.Meta.{ObjectMeta}
use redkey_operator.Api.Redkey.{Redkey}
use redkey_operator.Kube.Client.{Result, ok, Write}
use redkey_operator.Kube.Action.{Env, Action, lift, read, attempt, when, ◌>>=◌}
use redkey_operator.Kube.Runs.{Runs, Runs-bind, Runs-when, Runs-if}
use redkey_operator.Kube.Stored.{Stored, Storing, Answers}
use redkey_operator.Robin.Deployment.{build_desired_robin_deployment}
use redkey_operator.Robin.Ensure.{
  robin_key, rbac_meta, create_or, ensure_service_account, ensure_role, ensure_role_binding,
  ensure_rbac, ensure_robin_deployment,
}
use redkey_operator.Robin.Ensure.Placed.{
  Owned, There, PlacedRbac, RightServiceAccount, RightRole, RightRoleBinding, RightDeployment,
}
use redkey_operator.Robin.Ensure.Puts.{ensure-Runs}

-- Nothing is sent, and what there is stays.
abbrev pub Nothing : {T : Types} {V A : Type 0} → V → A → V → List (Write T) → Type 0
Nothing v a v' ws = (v' ≡ v) × (ws ≡ [])

module _ {T : Types} {K : Env T} {V : Type 0} {view : K.World → V} where
  rests :
      {A : Type 0} (owner m m' : ObjectMeta T) (get : K.World → Result K.ApiError A × K.World)
      (of : V → Option A) (v : V) (Right : A → Type 0)
      (missing : ObjectMeta T → Action K (Unit {0}))
      (found : ObjectMeta T → A → Action K (Unit {0}))
      → K.set_controller_reference owner m ≡ ok m'
      → ((w : K.World) → Answers K.kube (of (view w)) (get w).0 × (view (get w).1 ≡ view w))
      → There Right (of v)
      → ((a : A) → Right a → Runs view (found m' a) v (Nothing v))
      → Runs view
          (lift (K.set_controller_reference owner m) >>= λ meta.
            (attempt (read get) >>= λ r. create_or K r (missing meta) (found meta)))
          v
          (Nothing v)
  rests owner m m' get of v Right missing found owned answers (a, there, right) nothing =
      ensure-Runs owner m m' get of v (Nothing v) missing found owned answers (λ gone. absurd (cc))
        (λ b e. nothing b (subst Right (some-injective a b (sym there ∙ e)) right))

  rests-when :
      (b : Bool) (m : Action K (Unit {0})) (v : V) → b ≡ false → Runs view (when b m) v (Nothing v)
  rests-when b m v e = Runs-when b m (Nothing v) (λ h. absurd (cc)) (λ h. (refl, refl))

module _ {T : Types} {K : Env T} {view : K.World → Stored T} (cluster : Redkey T)
    (storing : Storing K.kube view (robin_key cluster)) (owned : Owned K cluster)
    (v : Stored T) where
  ensure_service_account-Rests :
      There (RightServiceAccount K cluster owned) v.service_account
      → Runs view (ensure_service_account K cluster) v (Nothing v)
  unfolding ensure_service_account
  ensure_service_account-Rests there =
      rests cluster.meta (rbac_meta cluster) owned.rbac _ (λ v. v.service_account) v _ _ _
        owned.rbac_owned storing.service_account_read there (λ a right. rests-when _ _ v right)

  ensure_role-Rests :
      There (RightRole K cluster owned) v.role → Runs view (ensure_role K cluster) v (Nothing v)
  unfolding ensure_role
  ensure_role-Rests there =
      rests cluster.meta (rbac_meta cluster) owned.rbac _ (λ v. v.role) v _ _ _ owned.rbac_owned
        storing.role_read there (λ a right. rests-when _ _ v right)

  ensure_role_binding-Rests :
      There (RightRoleBinding K cluster owned) v.role_binding
      → Runs view (ensure_role_binding K cluster) v (Nothing v)
  unfolding ensure_role_binding
  ensure_role_binding-Rests there =
      rests cluster.meta (rbac_meta cluster) owned.rbac _ (λ v. v.role_binding) v _ _ _
        owned.rbac_owned storing.role_binding_read there
        (λ a right.
          Runs-if _ _ _ (Nothing v)
            (λ differ. let never : false ≡ true = sym right.0 ∙ differ in absurd (cc))
            (λ same. rests-when _ _ v right.1))

  pub ensure_robin_deployment-Rests :
      There (RightDeployment K cluster owned) v.deployment
      → Runs view (ensure_robin_deployment K cluster) v (Nothing v)
  unfolding ensure_robin_deployment
  ensure_robin_deployment-Rests there =
      rests cluster.meta (build_desired_robin_deployment cluster).meta owned.deployment _
        (λ v. v.deployment) v _ _ _ owned.deployment_owned storing.deployment_read there
        (λ a right. rests-when _ _ v right)

  pub ensure_rbac-Rests :
      PlacedRbac K cluster owned v → Runs view (ensure_rbac K cluster) v (Nothing v)
  unfolding ensure_rbac
  ensure_rbac-Rests placed =
      Runs-bind _ (Nothing v) (ensure_service_account-Rests placed.service_account) (λ u v' ws h.
        rw (h.0, h.1)
          (Runs-bind _ (Nothing v) (ensure_role-Rests placed.role)
            (λ u v' ws h. rw (h.0, h.1) (ensure_role_binding-Rests placed.role_binding))))
