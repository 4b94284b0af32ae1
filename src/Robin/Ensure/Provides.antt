-- ===== src/Robin/Ensure/Provides.antt =====
-- What ensureRBAC and ensureRobinDeployment leave on the server: Robin's four objects.
use redkey_operator.Common.{Bool, true, List, [], ◌∷◌, ◌≡◌, refl}
use redkey_operator.Api.Types.{Types}
use redkey_operator.Api.Meta.{ObjectMeta}
use redkey_operator.Api.Redkey.{Redkey}
use redkey_operator.Api.Workload.{ServiceAccount, Role, RoleBinding, Deployment}
use redkey_operator.Kube.Client.{
  Result, Error, ok, err, Kind, Object, Write, create, patch, delete, service_account, role,
  role_binding, deployment, of_service_account, of_role, of_role_binding, of_deployment,
}
use redkey_operator.Kube.Laws.{OwnerLaw}
use redkey_operator.Kube.Action.{Env, Action, send, lift, read, attempt, when, ◌>>=◌, not_found}
use redkey_operator.Kube.Does.{
  Does, lifted, Does-bind, Does-lift, Does-attempt-read, Does-send, Does-weaken, Does-emit,
  Does-when, Does-if,
}
use redkey_operator.Kube.Does.Quiet.{then_quiet}
use redkey_operator.Kube.Willing.{Willing, FoundOrMissing}
use redkey_operator.Kube.Store.Known.{
  Leads, Known, with_kind, brings_created, brings_recreated, brings_nothing,
}
use redkey_operator.Kube.Store.{Store, replay}
use redkey_operator.Robin.Annotations.{patched_deployment}
use redkey_operator.Robin.Deployment.{build_desired_robin_deployment}
use redkey_operator.Robin.Ensure.{
  robin_key, rbac_meta, role_refs_differ, desired_robin_rules, desired_subjects, desired_role_ref,
  create_or, ensure_service_account, ensure_role, ensure_role_binding, ensure_robin_deployment,
}

abbrev desired_binding : {T : Types} → Redkey T → ObjectMeta T → Object T
desired_binding cluster m =
    of_role_binding (record {
      meta = m;
      subjects = desired_subjects cluster;
      role_ref = desired_role_ref cluster;
    })

-- An object of the kind more is known to be there.
abbrev pub More : {T : Types} → Redkey T → (Kind → Bool) → Kind → Unit {0} → List (Write T) → Type 0
More cluster b k u ws =
    Leads (Known (robin_key cluster) b) (Known (robin_key cluster) (with_kind k b)) u ws

-- An object is found that is known to be there, or it is missing.
abbrev Reply : {T : Types} (K : Env T) {A : Type 0} → Bool → Result (Error K.ApiError) A → Type 0
Reply K there (ok a) = there ≡ true
Reply K there (err e) = not_found K e ≡ true

Reply-lifted :
    {T : Types} (K : Env T) {A : Type 0} (there : Bool) (r r' : Result K.ApiError A)
    → r ≡ r'
    → FoundOrMissing K.kube r'
    → ((a : A) → r ≡ ok a → there ≡ true)
    → Reply K there (lifted r')
Reply-lifted K there r (ok a) e h t = t a e
Reply-lifted K there r (err e') e h t = h

module _ {T : Types} {K : Env T} where
  module _ (willing : Willing K.kube) (law : OwnerLaw K.kube) where
    -- An object that is created where it is missing, and corrected where it is there.
    provide :
        {A : Type 0} (owner m : ObjectMeta T) (get : K.World → Result K.ApiError A × K.World)
        (there : Bool) (L : Unit {0} → List (Write T) → Type 0)
        (missing : ObjectMeta T → Action K (Unit {0}))
        (found : ObjectMeta T → A → Action K (Unit {0}))
        → ((w : K.World) → FoundOrMissing K.kube (get w).0)
        → ((w : K.World) (a : A) → (get w).0 ≡ ok a → there ≡ true)
        → ((m' : ObjectMeta T)
            → m'.namespace ≡ m.namespace
            → m'.name ≡ m.name
            → Does (missing m') L)
        → ((m' : ObjectMeta T) (a : A)
            → m'.namespace ≡ m.namespace
            → m'.name ≡ m.name
            → there ≡ true
            → Does (found m' a) L)
        → Does
            (lift (K.set_controller_reference owner m) >>= λ meta.
              (attempt (read get) >>= λ r. create_or K r (missing meta) (found meta)))
            L
    provide owner m get there L missing found answers truthful create_it correct =
        let (m', e) = willing.owned owner m in
        let kept = law.keeps owner m m' e in
        Does-bind (λ x ws. (x ≡ m') × (ws ≡ [])) (λ x. L) L (Does-lift _ m' e)
          (λ x ws h. rw (h.0) (
            Does-bind (λ r ws. Reply K there r × (ws ≡ [])) (λ r. L) L
              (Does-attempt-read get (Reply K there)
                (λ w. Reply-lifted K there (get w).0 (get w).0 refl (answers w) (truthful w)))
              (λ r ws h.
                elim r as (λ r. Reply K there r → Does (create_or K r (missing m') (found m')) L) [
                  | ok a ↦ λ t. correct m' a kept.1 kept.0 t
                  | err e ↦ λ t. rw t (create_it m' kept.1 kept.0)
                ]
                  h.0)
              (λ r u ws vs h v. rw (h.1) v)))
          (λ x u ws vs h v. rw (h.1) v)

    send_leads :
        {L : Unit {0} → List (Write T) → Type 0} (w : Write T)
        → L tt (w ∷ [])
        → Does (send {K = K} w) L
    send_leads {L} w h =
        Does-weaken _ L (λ u ws e. rw e h) (Does-send w (λ world. willing.accepts w world))

    module _ (cluster : Redkey T) (b : Kind → Bool) where
      -- An object that is there is corrected where it differs.
      corrected :
          (k : Kind) (differs : Bool) (w : Write T)
          → ((store : Store) (j : Kind)
              → replay (w ∷ []) store j (robin_key cluster) ≡ store j (robin_key cluster))
          → b k ≡ true
          → Does (when differs (send {K = K} w)) (More cluster b k)
      corrected k differs w keeps there =
          Does-when differs _ (More cluster b k)
            (λ e.
              send_leads w (brings_nothing {T = T} (robin_key cluster) b k (w ∷ []) keeps there))
            (λ e. brings_nothing {T = T} (robin_key cluster) b k [] (λ store j. refl) there)

      pub ensure_service_account-More :
          ((w : K.World) (o : ServiceAccount T)
            → (K.get_service_account (robin_key cluster) w).0 ≡ ok o
            → b service_account ≡ true)
          → Does (ensure_service_account K cluster) (More cluster b service_account)
      unfolding ensure_service_account rbac_meta robin_key
      ensure_service_account-More truthful =
          provide cluster.meta (rbac_meta cluster) _ (b service_account)
            (More cluster b service_account) _ _ (willing.service_account (robin_key cluster))
            truthful
            (λ m ns name. send_leads _ (
              brings_created {T = T} (robin_key cluster) b service_account
                (of_service_account (record { meta = m })) m.namespace m.name (λ store j. refl) ns
                name))
            (λ m a ns name there. corrected service_account _ _ (λ store j. refl) there)

      pub ensure_role-More :
          ((w : K.World) (o : Role T) → (K.get_role (robin_key cluster) w).0 ≡ ok o → b role ≡ true)
          → Does (ensure_role K cluster) (More cluster b role)
      unfolding ensure_role rbac_meta robin_key
      ensure_role-More truthful =
          provide cluster.meta (rbac_meta cluster) _ (b role) (More cluster b role) _ _
            (willing.role (robin_key cluster)) truthful
            (λ m ns name. send_leads _ (
              brings_created {T = T} (robin_key cluster) b role
                (of_role (record { meta = m; rules = desired_robin_rules })) m.namespace m.name
                (λ store j. refl) ns name))
            (λ m a ns name there. corrected role _ _ (λ store j. refl) there)

      pub ensure_role_binding-More :
          ((w : K.World) (o : RoleBinding T)
            → (K.get_role_binding (robin_key cluster) w).0 ≡ ok o
            → b role_binding ≡ true)
          → Does (ensure_role_binding K cluster) (More cluster b role_binding)
      unfolding ensure_role_binding rbac_meta robin_key
      ensure_role_binding-More truthful =
          provide cluster.meta (rbac_meta cluster) _ (b role_binding) (More cluster b role_binding)
            _ _ (willing.role_binding (robin_key cluster)) truthful
            (λ m ns name. send_leads _ (
              brings_created {T = T} (robin_key cluster) b role_binding (desired_binding cluster m)
                m.namespace m.name (λ store j. refl) ns name))
            (λ m a ns name there.
              Does-if (role_refs_differ a.role_ref (desired_role_ref cluster)) _ _
                (More cluster b role_binding)
                (λ differ.
                  Does-bind (λ u ws. ws ≡ delete role_binding (robin_key cluster) ∷ [])
                    (λ u v ws. ws ≡ create (desired_binding cluster m) ∷ [])
                    (More cluster b role_binding)
                    (Does-send (delete role_binding (robin_key cluster))
                      (λ world. willing.accepts _ world))
                    (λ u ws e.
                      Does-send (create (desired_binding cluster m))
                        (λ world. willing.accepts _ world))
                    (λ u v ws vs e e'.
                      rw (e, e')
                        (brings_recreated {T = T} (robin_key cluster) b role_binding
                          (desired_binding cluster m) m.namespace m.name (λ store j. refl) ns
                          name)))
                (λ same. corrected role_binding _ _ (λ store j. refl) there))

      pub ensure_robin_deployment-More :
          ((w : K.World) (o : Deployment T)
            → (K.get_deployment (robin_key cluster) w).0 ≡ ok o
            → b deployment ≡ true)
          → Does (ensure_robin_deployment K cluster) (More cluster b deployment)
      unfolding ensure_robin_deployment build_desired_robin_deployment robin_key
      ensure_robin_deployment-More truthful =
          provide cluster.meta (build_desired_robin_deployment cluster).meta _ (b deployment)
            (More cluster b deployment) _ _ (willing.deployment (robin_key cluster)) truthful
            (λ m ns name.
              then_quiet (More cluster b deployment tt)
                (send_leads _ (
                  brings_created {T = T} (robin_key cluster) b deployment
                    (of_deployment (record (build_desired_robin_deployment cluster) { meta = m }))
                    m.namespace m.name (λ store j. refl) ns name))
                (λ u. Does-emit _))
            (λ m a ns name there.
              Does-when _ _ (More cluster b deployment)
                (λ e.
                  then_quiet (More cluster b deployment tt)
                    (send_leads _ (
                      brings_nothing {T = T} (robin_key cluster) b deployment
                        (patch (of_deployment a) (
                            of_deployment (
                              patched_deployment a
                                (record (build_desired_robin_deployment cluster) { meta = m })))
                          ∷ [])
                        (λ store j. refl) there))
                    (λ u. Does-emit _))
                (λ e.
                  brings_nothing {T = T} (robin_key cluster) b deployment [] (λ store j. refl)
                    there))
