-- ===== src/Robin/Ensure/Leaves.antt =====
-- Each of ensureRBAC's steps on a server that keeps what it is sent: the object is there and right
-- afterwards.
use redkey_operator.Common.{true, false, none, some, ◌≡◌, refl, ap, ◌∙◌}
use redkey_operator.Common.GoMap.{lookup}
use redkey_operator.Api.Types.{Types}
use redkey_operator.Api.Redkey.{Redkey}
use redkey_operator.Api.Workload.{ServiceAccount, Role, RoleBinding}
use redkey_operator.Kube.Client.{create, delete, of_role_binding, role_binding}
use redkey_operator.Kube.Action.{Env, send}
use redkey_operator.Kube.Laws.{EqualityLaws, OwnerLaw}
use redkey_operator.Kube.Runs.{Runs, Runs-bind, Runs-if}
use redkey_operator.Kube.Runs.Sends.{Runs-send}
use redkey_operator.Kube.Stored.{Stored, Storing}
use redkey_operator.Robin.Annotations.{deployment_revision_annotation}
use redkey_operator.Robin.Ensure.{
  robin_key, rbac_meta, desired_robin_rules, desired_subjects, desired_role_ref, role_refs_differ,
  metadata_differs, ensure_service_account, ensure_role, ensure_role_binding,
}
use redkey_operator.Robin.Ensure.Placed.{
  Owned, RightServiceAccount, RightRole, RightRoleBinding, metadata_differs-kept,
  role_refs_differ_self,
}
use redkey_operator.Robin.Ensure.Puts.{Puts, ensure-Runs, send-Puts, when-Puts}

module _ {T : Types} {K : Env T} {view : K.World → Stored T} (cluster : Redkey T)
    (storing : Storing K.kube view (robin_key cluster)) (owner : OwnerLaw K.kube)
    (equal : EqualityLaws K.kube) (owned : Owned K cluster)
    (unmanaged : lookup deployment_revision_annotation owned.deployment.annotations ≡ none) where
  kept_namespace : owned.rbac.namespace ≡ (robin_key cluster).namespace
  unfolding rbac_meta robin_key
  kept_namespace = (owner.keeps _ _ _ owned.rbac_owned).1

  kept_name : owned.rbac.name ≡ (robin_key cluster).name
  unfolding rbac_meta robin_key
  kept_name = (owner.keeps _ _ _ owned.rbac_owned).0

  abbrev pub put_service_account : Stored T → ServiceAccount T → Stored T
  put_service_account v kept = record v { service_account = some kept }

  abbrev pub put_role : Stored T → Role T → Stored T
  put_role v kept = record v { role = some kept }

  abbrev pub put_role_binding : Stored T → RoleBinding T → Stored T
  put_role_binding v kept = record v { role_binding = some kept }

  pub ensure_service_account-Runs :
      (v : Stored T)
      → Runs view
          (ensure_service_account K cluster)
          v
          (Puts (RightServiceAccount K cluster owned) (put_service_account v))
  unfolding ensure_service_account
  ensure_service_account-Runs v =
      ensure-Runs cluster.meta (rbac_meta cluster) owned.rbac _ (λ v. v.service_account) v _ _ _
        owned.rbac_owned storing.service_account_read
        (λ gone. send-Puts _ v _ put_service_account (λ w e.
          let (took, (kept, same, eq)) =
            storing.service_account_created (record { meta = owned.rbac }) w kept_namespace
              kept_name (ap (λ v. v.service_account) e ∙ gone) in
          (took, (kept, metadata_differs-kept K equal kept.meta owned.rbac same.0 same.1, eq))))
        (λ a there.
          when-Puts _ _ v a _ put_service_account (λ e. e)
            (ap (λ x. record v { service_account = x }) there)
            (λ w e.
              let (took, (kept, same, eq)) =
                storing.service_account_patched a _ w (ap (λ v. v.service_account) e ∙ there) in
              (took, (kept, metadata_differs-kept K equal kept.meta owned.rbac same.0 same.1, eq))))

  equal_rules : {A : Type 0} (kept sent : A) → kept ≡ sent → K.deep_equal kept sent ≡ true
  equal_rules kept sent e = ap (λ x. K.deep_equal x sent) e ∙ equal.deep_equal_refl sent

  RightRole-kept :
      (kept : Role T)
      → kept.rules ≡ desired_robin_rules
      → metadata_differs K kept.meta owned.rbac ≡ false
      → RightRole K cluster owned kept
  RightRole-kept kept rules same = rw (equal_rules kept.rules desired_robin_rules rules) same

  pub ensure_role-Runs :
      (v : Stored T)
      → Runs view (ensure_role K cluster) v (Puts (RightRole K cluster owned) (put_role v))
  unfolding ensure_role
  ensure_role-Runs v =
      ensure-Runs cluster.meta (rbac_meta cluster) owned.rbac _ (λ v. v.role) v _ _ _
        owned.rbac_owned storing.role_read
        (λ gone. send-Puts _ v _ put_role (λ w e.
          let (took, (kept, same, rules, eq)) =
            storing.role_created (record { meta = owned.rbac; rules = desired_robin_rules }) w
              kept_namespace kept_name (ap (λ v. v.role) e ∙ gone) in
          (
            took,
            (
              kept,
              RightRole-kept kept rules
                  (metadata_differs-kept K equal kept.meta owned.rbac same.0 same.1),
              eq,
            ),
          )))
        (λ a there.
          when-Puts _ _ v a _ put_role (λ e. e) (ap (λ x. record v { role = x }) there)
            (λ w e.
              let (took, (kept, same, rules, eq)) =
                storing.role_patched a _ w (ap (λ v. v.role) e ∙ there) in
              (
                took,
                (
                  kept,
                  RightRole-kept kept rules
                      (metadata_differs-kept K equal kept.meta owned.rbac same.0 same.1),
                  eq,
                ),
              )))

  abbrev desired_binding : RoleBinding T
  desired_binding = record {
    meta = owned.rbac;
    subjects = desired_subjects cluster;
    role_ref = desired_role_ref cluster;
  }

  RightRoleBinding-kept :
      (kept : RoleBinding T)
      → kept.meta.labels ≡ owned.rbac.labels
      → kept.meta.annotations ≡ owned.rbac.annotations
      → kept.subjects ≡ desired_subjects cluster
      → role_refs_differ kept.role_ref (desired_role_ref cluster) ≡ false
      → RightRoleBinding K cluster owned kept
  RightRoleBinding-kept kept labels annotations subjects role_ref = (
    role_ref,
    rw (equal_rules kept.subjects (desired_subjects cluster) subjects)
        (metadata_differs-kept K equal kept.meta owned.rbac labels annotations),
  )

  -- The create after which the binding is right.
  create_role_binding :
      (v : Stored T)
      → v.role_binding ≡ none
      → Runs view
          (send {K = K} (create (of_role_binding desired_binding)))
          v
          (Puts (RightRoleBinding K cluster owned) (put_role_binding v))
  create_role_binding v gone = send-Puts _ v _ put_role_binding (λ w e.
      let (took, (kept, same, subjects, role_ref, eq)) =
        storing.role_binding_created desired_binding w kept_namespace kept_name
          (ap (λ v. v.role_binding) e ∙ gone) in
      (
        took,
        (
          kept,
          RightRoleBinding-kept kept same.0 same.1 subjects (
              ap (λ r. role_refs_differ r (desired_role_ref cluster)) role_ref
              ∙ role_refs_differ_self (desired_role_ref cluster)),
          eq,
        ),
      ))

  pub ensure_role_binding-Runs :
      (v : Stored T)
      → Runs view
          (ensure_role_binding K cluster)
          v
          (Puts (RightRoleBinding K cluster owned) (put_role_binding v))
  unfolding ensure_role_binding
  ensure_role_binding-Runs v =
      ensure-Runs cluster.meta (rbac_meta cluster) owned.rbac _ (λ v. v.role_binding) v _ _ _
        owned.rbac_owned storing.role_binding_read (create_role_binding v)
        (λ a there.
          Runs-if (role_refs_differ a.role_ref (desired_role_ref cluster)) _ _
            (Puts (RightRoleBinding K cluster owned) (put_role_binding v))
            (λ differ.
              Runs-bind _ _
                (Runs-send (delete role_binding (robin_key cluster))
                  (λ v'. v' ≡ record v { role_binding = none })
                  (λ w e.
                    let (took, eq) =
                      storing.role_binding_deleted a w (ap (λ v. v.role_binding) e ∙ there) in
                    (took, eq ∙ ap (λ (x : Stored T). record x { role_binding = none }) e)))
                (λ u v' ws h.
                  rw (h.0) (create_role_binding (record v { role_binding = none }) refl)))
            (λ same_ref.
              when-Puts _ _ v a _ put_role_binding (λ e. (same_ref, e))
                (ap (λ x. record v { role_binding = x }) there)
                (λ w e.
                  let (took, (kept, same, subjects, role_ref, eq)) =
                    storing.role_binding_patched a _ w (ap (λ v. v.role_binding) e ∙ there) in
                  (
                    took,
                    (
                      kept,
                      RightRoleBinding-kept kept same.0 same.1 subjects (
                          ap (λ r. role_refs_differ r (desired_role_ref cluster)) role_ref
                          ∙ same_ref),
                      eq,
                    ),
                  ))))
