-- ===== src/Reconcile/Settles/First.antt =====
-- The first reconcile of a cluster with primaries: it leaves nothing to do.
use redkey_operator.Common.{Option, some, List, ◌≡◌, refl, sym, ap, subst, ◌∙◌, last?}
use redkey_operator.Api.Types.{Types}
use redkey_operator.Api.Redkey.{Redkey}
use redkey_operator.Api.Config.{RedkeyConfig}
use redkey_operator.Kube.Client.{Write}
use redkey_operator.Kube.Action.{Env}
use redkey_operator.Kube.Runs.{Runs, Runs-bind, Runs-weaken, Runs-pure}
use redkey_operator.Kube.Runs.Still.{Runs-Still}
use redkey_operator.Kube.Stored.{Stored}
use redkey_operator.Robin.Ensure.Placed.{Placed}
use redkey_operator.Robin.Ensure.Places.{ensure_rbac-Leaves, ensure_robin_deployment-Leaves}
use redkey_operator.Config.Create.{next_sequence}
use redkey_operator.Config.Sequence.{select_active_config}
use redkey_operator.Config.Orderly.{Orderly, listed, list_configs-Runs}
use redkey_operator.Config.Orderly.Creates.{Succession, Succession-Within}
use redkey_operator.Common.Sort.Edits.{Within}
use redkey_operator.Config.Orderly.Numbered.{Numbered, Numbered-Orderly, Numbered-Room}
use redkey_operator.Config.Orderly.Cleans.{cleanup_superseded_configs-Runs}
use redkey_operator.Metrics.Record.Total.{record_redkey_metrics-Still}
use redkey_operator.Reconcile.{settle_configs, reconcile_running}
use redkey_operator.Reconcile.Settles.{Keeping, Ready, Settled}
use redkey_operator.Reconcile.Settles.Stages.{
  stage-Runs, Nonempty, select_active_config-some, ensure_config-Runs, aggregate_status-Runs,
}

module _ {T : Types} {K : Env T} {view : K.World → Stored T} (cluster : Redkey T)
    (keeping : Keeping K view cluster) where
  -- Settled, and no config is new.
  abbrev pub Tidied : {A : Type 0} → Stored T → A → Stored T → List (Write T) → Type 0
  Tidied v d v' ws = Settled cluster keeping v' × Within v'.configs v.configs

  -- Settled, and at most one config is new.
  abbrev pub Succeeded : {A : Type 0} → Stored T → A → Stored T → List (Write T) → Type 0
  Succeeded v d v' ws = Settled cluster keeping v' × Succession cluster v.configs v'.configs

  -- The configs of a Stored are replaced, and Robin's objects are still in place.
  pub Placed-over :
      (v : Stored T) (redkey : Option (Redkey T)) (configs : List (RedkeyConfig T))
      → Placed K cluster keeping.owned v
      → Placed K cluster keeping.owned (record v { redkey = redkey; configs = configs })
  Placed-over v redkey configs p = record {
    rbac = record {
      service_account = p.rbac.service_account;
      role = p.rbac.role;
      role_binding = p.rbac.role_binding;
    };
    deployment = p.deployment;
  }

  Placed-configs :
      (v v' : Stored T)
      → v' ≡ record v { configs = v'.configs }
      → Placed K cluster keeping.owned v
      → Placed K cluster keeping.owned v'
  Placed-configs v v' same p =
      subst (Placed K cluster keeping.owned) (sym same) (Placed-over v v.redkey v'.configs p)

  -- What is left after the configs were dealt with.
  settle_configs-Settles :
      (v : Stored T) (configs : List (RedkeyConfig T))
      → v.redkey ≡ some cluster
      → Placed K cluster keeping.owned v
      → Orderly cluster.meta.namespace v.configs
      → configs ≡ listed v
      → Nonempty configs
      → Runs view (settle_configs K cluster configs) v (Tidied v)
  unfolding settle_configs
  settle_configs-Settles v configs there placed orderly same (c, rest, shape) = rw shape (
      Runs-bind _ (Tidied v)
        (stage-Runs _ _ v _ (
          cleanup_superseded_configs-Runs cluster keeping.objects v c rest orderly
            (sym same ∙ shape)))
        (λ kept v1 ws ((listing, orderly1, same1, within), (d, newer, shape1, unapplied), newest).
          let (active, chosen) = select_active_config-some d newer in
          Runs-bind _ (Tidied v)
            (stage-Runs _ _ v1 _ (
              aggregate_status-Runs cluster keeping.objects v1 kept active keeping.retry
                keeping.robin.clock_same (ap (λ (x : Stored T). x.redkey) same1 ∙ there)
                (ap select_active_config shape1 ∙ chosen)))
            (λ u v2 ws (status, observed, same2, t, one). Runs-pure _ _ (
              subst (λ x. Settled cluster keeping x × Within x.configs v.configs) (sym same2)
                (
                  record {
                    status = status;
                    observed = observed;
                    redkey = refl;
                    placed = Placed-over v1 _ v1.configs (Placed-configs v v1 same1 placed);
                    orderly = orderly1;
                    clean = (d, newer, listing ∙ shape1, unapplied);
                  },
                  within,
                )))))

  Ready-same :
      (v v' : Stored T)
      → v'.redkey ≡ v.redkey
      → v'.configs ≡ v.configs
      → Ready cluster keeping v
      → Ready cluster keeping v'
  Ready-same v v' redkey configs ready = record {
    redkey = redkey ∙ ready.redkey;
    numbered = subst (Numbered cluster) (sym configs) ready.numbered;
  }

  pub reconcile_running-Settles :
      (v : Stored T)
      → Ready cluster keeping v
      → Runs view (reconcile_running K cluster) v (Succeeded v)
  unfolding reconcile_running
  reconcile_running-Settles v ready =
      Runs-bind _ (Succeeded v)
        (stage-Runs _ _ v _ (
          ensure_rbac-Leaves cluster keeping.robin keeping.owner keeping.equal keeping.owned
            keeping.unmanaged v))
        (λ u v1 ws (rbac, same1).
          Runs-bind _ (Succeeded v)
            (stage-Runs _ _ v1 _ (
              ensure_robin_deployment-Leaves cluster keeping.robin keeping.owner keeping.equal
                keeping.owned keeping.unmanaged v1 rbac))
            (λ u v2 ws (placed, same2).
              let ready2 = Ready-same v v2 (same2.0 ∙ same1.0) (same2.1 ∙ same1.1) ready in
              let orderly2 = Numbered-Orderly cluster v2.configs ready2.numbered in
              let (meta, config_owned) = keeping.config_owned (next_sequence (last? (listed v2))) in
              Runs-bind _ (Succeeded v)
                (stage-Runs _ _ v2 _ (list_configs-Runs cluster keeping.objects v2 orderly2))
                (λ xs v' ws h.
                  rw (h.0, h.1)
                    (Runs-bind _ (Succeeded v)
                      (ensure_config-Runs cluster keeping.objects v2 meta keeping.owner orderly2
                        (Numbered-Room cluster v2.configs ready2.numbered) config_owned)
                      (λ configs v3 ws (listing, some_config, orderly, same3, succession).
                        Runs-bind _ (Succeeded v)
                          (settle_configs-Settles v3 configs
                            (ap (λ (x : Stored T). x.redkey) same3 ∙ ready2.redkey)
                            (Placed-configs v2 v3 same3 placed) orderly listing some_config)
                          (λ d v4 ws (settled, within).
                            Runs-weaken _ _
                              (λ u v' ws h. rw (h.0) (
                                settled,
                                subst (λ xs. Succession cluster xs v4.configs) (same2.1 ∙ same1.1)
                                    (Succession-Within cluster v2.configs v3.configs v4.configs
                                      succession within),
                              ))
                              (Runs-Still (
                                record_redkey_metrics-Still K view keeping.robin.clock_same d.0
                                  (select_active_config d.1)))))))))
