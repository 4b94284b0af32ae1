-- ===== src/Tests/Holding.antt =====
-- A small API server that has Robin's objects.
use redkey_operator.Common.{false, List, [], ◌∷◌, ◌≡◌, refl}
use redkey_operator.Api.Meta.{ObjectMeta}
use redkey_operator.Api.Config.{RedkeyConfig}
use redkey_operator.Api.Redkey.{Redkey}
use redkey_operator.Api.Workload.{Deployment}
use redkey_operator.Kube.Client.{Kube, ok}
use redkey_operator.Kube.Laws.{RetryLaw}
use redkey_operator.Kube.Action.{Env}
use redkey_operator.Kube.Willing.{Willing}
use redkey_operator.Robin.Annotations.{robin_deployment_needs_update}
use redkey_operator.Robin.Deployment.{build_desired_robin_deployment}
use redkey_operator.Robin.Ensure.{
  rbac_meta, desired_robin_rules, desired_subjects, desired_role_ref, role_refs_differ,
  metadata_differs,
}
use redkey_operator.Robin.Ensure.InPlace.{InPlace}
use redkey_operator.Tests.Server.{types, server, gauges, server-RetryLaw, server-Willing}

abbrev pub owned : Redkey types → ObjectMeta types
owned cluster = record (rbac_meta cluster) { owner_references = tt ∷ [] }

abbrev pub robin : Redkey types → Deployment types
robin cluster = record (build_desired_robin_deployment cluster) {
  meta = record (build_desired_robin_deployment cluster).meta { owner_references = tt ∷ [] };
}

module _ (cluster : Redkey types) (listing : List (RedkeyConfig types)) where
  abbrev pub holding : Kube types
  holding = record (server (ok cluster) listing) {
    get_service_account = λ key w. (ok (record { meta = owned cluster }), w);
    get_role = λ key w. (ok (record { meta = owned cluster; rules = desired_robin_rules }), w);
    get_role_binding = λ key w. (
      ok (record {
        meta = owned cluster;
        subjects = desired_subjects cluster;
        role_ref = desired_role_ref cluster;
      }),
      w,
    );
    get_deployment = λ key w. (ok (robin cluster), w);
  }

  abbrev pub holding_env : Env types
  holding_env = record { kube = holding; collectors = gauges }

  pub holding-RetryLaw : RetryLaw holding
  holding-RetryLaw = record { retried = (server-RetryLaw (ok cluster) listing).retried }

  pub holding-Willing : Willing holding
  holding-Willing =
      let w = server-Willing cluster listing in
      record {
        redkey = w.redkey;
        service_account = λ key w. tt;
        role = λ key w. tt;
        role_binding = λ key w. tt;
        deployment = λ key w. tt;
        configs = w.configs;
        accepts = w.accepts;
        accepts_status = w.accepts_status;
        owned = w.owned;
      }

  -- Where none of the comparisons sees a difference.
  pub holding-InPlace :
      metadata_differs holding_env (owned cluster) (owned cluster) ≡ false
      → role_refs_differ (desired_role_ref cluster) (desired_role_ref cluster) ≡ false
      → robin_deployment_needs_update holding (robin cluster) (robin cluster) ≡ false
      → InPlace holding_env cluster
  holding-InPlace same same_ref up_to_date = record {
    rbac = owned cluster;
    rbac_owned = refl;
    service_account = record { meta = owned cluster };
    service_account_found = λ w. refl;
    service_account_same = same;
    role = record { meta = owned cluster; rules = desired_robin_rules };
    role_found = λ w. refl;
    role_same = same;
    role_binding = record {
      meta = owned cluster;
      subjects = desired_subjects cluster;
      role_ref = desired_role_ref cluster;
    };
    role_binding_found = λ w. refl;
    role_ref_same = same_ref;
    role_binding_same = same;
    owned = record (build_desired_robin_deployment cluster).meta { owner_references = tt ∷ [] };
    deployment_owned = refl;
    deployment = robin cluster;
    deployment_found = λ w. refl;
    deployment_same = up_to_date;
  }
