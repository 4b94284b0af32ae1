-- ===== src/Tests/Shelf.antt =====
-- A small API server that keeps one cluster's objects as they are sent.
use mathlib.Core.List.Permᴰ
use redkey_operator.Common.{
  ℕ, suc, String, Bool, true, false, Option, none, some, List, [], ◌∷◌, ◌≡◌, refl, if◌then◌else◌,
  inl, inr, ◌⊎◌, All,
}
use redkey_operator.Common.Int.{pos}
use redkey_operator.Common.Sort.Edits.{without}
use redkey_operator.Api.Meta.{NamespacedName}
use redkey_operator.Api.Redkey.{Redkey}
use redkey_operator.Api.Config.{RedkeyConfig}
use redkey_operator.Api.Workload.{Deployment}
use redkey_operator.Kube.Client.{
  Kube, Kind, Object, Write, Result, ok, err, create, patch, delete, update_status,
  of_service_account, of_role, of_role_binding, of_deployment, of_config, service_account, role,
  role_binding, deployment, config,
}
use redkey_operator.Kube.Laws.{RetryLaw, OwnerLaw, EqualityLaws}
use redkey_operator.Kube.Action.{Env}
use redkey_operator.Kube.Stored.{Stored, Storing, Answers, KeptDeployment}
use redkey_operator.Kube.Stored.Cluster.{StoringCluster, KeptConfig, named}
use redkey_operator.Tests.Server.{
  types, Failure, missing, exists, server, gauges, server-RetryLaw, server-OwnerLaw,
  server-EqualityLaws,
}

-- What there is, and the clock.
abbrev pub Shelf : Type 0
Shelf = Stored types × ℕ

abbrev Reply : Type 0
Reply = Result Failure (Unit {0}) × Shelf

abbrev answer : {A : Type 0} → Option A → Shelf → Result Failure A × Shelf
answer none w = (err missing, w)
answer (some a) w = (ok a, w)

-- A first object, and one in the place of another.
abbrev put_new : {A : Type 0} → Option A → Shelf → Stored types → Reply
put_new none w v = (ok tt, (v, w.1))
put_new (some a) w v = (err exists, w)

abbrev put_over : {A : Type 0} → Option A → Shelf → Stored types → Reply
put_over none w v = (err missing, w)
put_over (some a) w v = (ok tt, (v, w.1))

abbrev has_name : String → List (RedkeyConfig types) → Bool
has_name name [] = false
has_name name (c ∷ cs) = if named name c then true else has_name name cs

abbrev created : Object types → Shelf → Reply
created (of_service_account o) w =
    put_new w.0.service_account w (record w.0 { service_account = some o })
created (of_role o) w = put_new w.0.role w (record w.0 { role = some o })
created (of_role_binding o) w = put_new w.0.role_binding w (record w.0 { role_binding = some o })
created (of_deployment o) w = put_new w.0.deployment w (record w.0 { deployment = some o })
created (of_config o) w =
    if has_name o.meta.name w.0.configs
    then (err exists, w)
    else (ok tt, (record w.0 { configs = o ∷ w.0.configs }, w.1))

abbrev patched : Object types → Shelf → Reply
patched (of_service_account o) w =
    put_over w.0.service_account w (record w.0 { service_account = some o })
patched (of_role o) w = put_over w.0.role w (record w.0 { role = some o })
patched (of_role_binding o) w = put_over w.0.role_binding w (record w.0 { role_binding = some o })
patched (of_deployment o) w = put_over w.0.deployment w (record w.0 { deployment = some o })
patched (of_config o) w = (ok tt, w)

abbrev deleted : Kind → NamespacedName → Shelf → Reply
deleted service_account k w = put_over w.0.service_account w (record w.0 { service_account = none })
deleted role k w = put_over w.0.role w (record w.0 { role = none })
deleted role_binding k w = put_over w.0.role_binding w (record w.0 { role_binding = none })
deleted deployment k w = put_over w.0.deployment w (record w.0 { deployment = none })
deleted config k w = (
  if has_name k.name w.0.configs then ok tt else err missing,
  (record w.0 { configs = without (named k.name) w.0.configs }, w.1),
)

abbrev submitted : Write types → Shelf → Reply
submitted (create o) w = created o w
submitted (patch a o) w = patched o w
submitted (delete kind k) w = deleted kind k w
submitted (update_status c) w = (ok tt, w)

abbrev status_taken :
    Option (Redkey types) → Redkey types → Shelf → Result Failure (Redkey types) × Shelf
status_taken none c w = (err missing, w)
status_taken (some old) c w =
    let kept : Redkey types = record old { status = c.status } in
    (ok kept, (record w.0 { redkey = some kept }, w.1))

abbrev pub shelf : Redkey types → Kube types
shelf cluster = record (server (ok cluster) []) {
  World = Shelf;
  now = λ w. (pos w.1, (w.0, suc w.1));
  get_redkey = λ key w. answer w.0.redkey w;
  get_service_account = λ key w. answer w.0.service_account w;
  get_role = λ key w. answer w.0.role w;
  get_role_binding = λ key w. answer w.0.role_binding w;
  get_deployment = λ key w. answer w.0.deployment w;
  list_configs = λ ns label value w. (ok w.0.configs, w);
  submit = submitted;
  submit_status = λ c w. status_taken w.0.redkey c w;
}

abbrev pub shelf_env : Redkey types → Env types
shelf_env cluster = record { kube = shelf cluster; collectors = gauges }

module _ (cluster : Redkey types) where
  pub answer-Answers :
      {A : Type 0} (o : Option A) (w : Shelf)
      → Answers (shelf cluster) o (answer o w).0 × (◌≡◌ {A = Stored types} (answer o w).1.0 w.0)
  answer-Answers none w = ((missing, refl, refl), refl)
  answer-Answers (some a) w = (refl, refl)

  pub same_deployment : (o : Deployment types) → KeptDeployment (shelf cluster) o o
  same_deployment o = record {
    labels = refl;
    annotations = λ k e. refl;
    replicas = refl;
    template_labels = refl;
    template_annotations = refl;
    pod_spec = refl;
  }

  pub shelf-Storing : (key : NamespacedName) → Storing (shelf cluster) (λ w. w.0) key
  shelf-Storing key = record {
    clock_same = λ w. refl;
    service_account_read = λ w. answer-Answers w.0.service_account w;
    role_read = λ w. answer-Answers w.0.role w;
    role_binding_read = λ w. answer-Answers w.0.role_binding w;
    deployment_read = λ w. answer-Answers w.0.deployment w;
    service_account_created = λ o w ns name e. rw e (refl, (o, (refl, refl), refl));
    service_account_patched = λ a o w e. rw e (refl, (o, (refl, refl), refl));
    role_created = λ o w ns name e. rw e (refl, (o, (refl, refl), refl, refl));
    role_patched = λ a o w e. rw e (refl, (o, (refl, refl), refl, refl));
    role_binding_created = λ o w ns name e. rw e (refl, (o, (refl, refl), refl, refl, refl));
    role_binding_patched = λ a o w e. rw e (refl, (o, (refl, refl), refl, refl, refl));
    role_binding_deleted = λ a w e. rw e (refl, refl);
    deployment_created = λ o w ns name e. rw e (refl, (o, same_deployment o, refl));
    deployment_patched = λ a o w e. rw e (refl, (o, same_deployment o, refl));
  }

  has_name-none :
      (name : String) (cs : List (RedkeyConfig types))
      → All (λ d. named name d ≡ false) cs
      → has_name name cs ≡ false
  has_name-none name [] h = refl
  has_name-none name (c ∷ cs) h = rw (h.0) (has_name-none name cs h.1)

  pub shelf-StoringCluster : (key : NamespacedName) → StoringCluster (shelf cluster) (λ w. w.0) key
  shelf-StoringCluster key = record {
    redkey_read = λ c w e. rw e (refl, refl);
    configs_read = λ w. ((w.0.configs, refl, Permᴰ.refl w.0.configs), refl);
    config_created = λ c w ns label fresh.
        rw (has_name-none c.meta.name w.0.configs fresh) (refl, (c, same c, refl));
    config_deleted = λ k w ns. (found (has_name k.name w.0.configs), refl);
    status_updated = λ c old w e own. rw e (c.status, refl, refl, refl);
  }
    where
      same : (c : RedkeyConfig types) → KeptConfig c c
      same c = record {
        name = refl;
        namespace = refl;
        annotations = refl;
        sequence = refl;
        config_phase = refl;
      }

      found :
          (b : Bool)
          → (◌≡◌ {A = Result Failure (Unit {0})} (if b then ok tt else err missing) (ok tt))
            ⊎ ((e : Failure) × (◌≡◌ {A = Result Failure (Unit {0})}
                  (if b then ok tt else err missing)
                  (err e))
                × ((shelf cluster).is_not_found e ≡ true))
      found true = inl refl
      found false = inr (missing, refl, refl)

  pub shelf-RetryLaw : RetryLaw (shelf cluster)
  shelf-RetryLaw = record { retried = (server-RetryLaw (ok cluster) []).retried }

  pub shelf-OwnerLaw : OwnerLaw (shelf cluster)
  shelf-OwnerLaw = record { keeps = (server-OwnerLaw (ok cluster) []).keeps }

  pub shelf-EqualityLaws : EqualityLaws (shelf cluster)
  shelf-EqualityLaws =
      let laws = server-EqualityLaws (ok cluster) [] in
      record {
        deep_equal_maps-iff = laws.deep_equal_maps-iff;
        deep_equal_refl = laws.deep_equal_refl;
        deep_derivative_refl = laws.deep_derivative_refl;
      }
