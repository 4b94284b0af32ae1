-- ===== src/Config/Sequence/Listed.antt =====
-- listConfigs on a server that answers with one listing.
use redkey_operator.Common.{List, [], ◌≡◌, refl, ap}
use redkey_operator.Common.Sort.{sort_slice}
use redkey_operator.Api.Types.{Types}
use redkey_operator.Api.Redkey.{Redkey}
use redkey_operator.Api.Config.{RedkeyConfig}
use redkey_operator.Kube.Client.{ok}
use redkey_operator.Kube.Action.{Env}
use redkey_operator.Kube.Does.{Does, Does-read, Does-pure}
use redkey_operator.Kube.Does.Quiet.{after_quiet}
use redkey_operator.Robin.Merge.{cluster_label}
use redkey_operator.Config.Sequence.{before, list_configs}

pub list_configs-Does :
    {T : Types} {K : Env T} (cluster : Redkey T) (items : List (RedkeyConfig T))
    → ((w : K.World)
        → (K.list_configs cluster.meta.namespace cluster_label cluster.meta.name w).0 ≡ ok items)
    → Does (list_configs K cluster) (λ configs ws. (configs ≡ sort_slice before items) × (ws ≡ []))
unfolding list_configs
list_configs-Does cluster items listed =
    after_quiet (λ xs. xs ≡ items) _ (Does-read _ _ (λ w. (items, listed w, refl)))
      (λ xs e. Does-pure _ _ (ap (sort_slice before) e, refl))
