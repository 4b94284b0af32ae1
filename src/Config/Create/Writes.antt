-- ===== src/Config/Create/Writes.antt =====
-- What createNewConfig sends.
use redkey_operator.Common.{Option, ◌≡◌, refl}
use redkey_operator.Api.Types.{Types}
use redkey_operator.Api.Meta.{ObjectMeta}
use redkey_operator.Api.Config.{RedkeyConfig}
use redkey_operator.Api.Redkey.{Redkey}
use redkey_operator.Kube.Client.{Result, Error, ok, err, Write, create, of_config}
use redkey_operator.Kube.Action.{Env, already_exists}
use redkey_operator.Kube.Keeps.{
  Keeps, Any, Returns, Keeps-bind, Keeps-lift, Keeps-if, Keeps-pure, Keeps-fail,
}
use redkey_operator.Kube.Sent.{Sent, sent_rules, Keeps-emit}
use redkey_operator.Config.Create.{
  next_sequence, config_spec, config_meta, empty_status, after_create, create_new_config,
}

-- A config for the cluster's spec with the sequence number that follows the given config's.
pub record IsSuccessor {T : Types} (K : Env T) (cluster : Redkey T)
    (highest : Option (RedkeyConfig T)) (c : RedkeyConfig T) : Type 0 where
  pub sequence : c.spec ≡ config_spec cluster (next_sequence highest)
  pub owned :
      K.set_controller_reference cluster.meta (config_meta cluster (next_sequence highest))
      ≡ ok c.meta

module _ {T : Types} (K : Env T) (cluster : Redkey T) (highest : Option (RedkeyConfig T))
    (Q : Write T → Type 0) where
  after_create-Sent :
      (r : Result (Error K.ApiError) (Unit {0})) → Keeps (Sent Q) (after_create K highest r) Any
  unfolding after_create
  after_create-Sent (ok u) = Keeps-emit _
  after_create-Sent (err e) =
      Keeps-if (already_exists K e) _ _ (λ _. Keeps-pure tt tt) (λ _. Keeps-fail e)

  returned : (r : Result K.ApiError (ObjectMeta T)) → Returns (λ m. r ≡ ok m) r
  returned (ok m) = refl
  returned (err e) = tt

  pub create_new_config-Sent :
      ((c : RedkeyConfig T) → IsSuccessor K cluster highest c → Q (create (of_config c)))
      → Keeps (Sent Q) (create_new_config K cluster highest) Any
  unfolding create_new_config
  create_new_config-Sent allowed =
      Keeps-bind
        {R = λ m.
          K.set_controller_reference cluster.meta (config_meta cluster (next_sequence highest))
          ≡ ok m}
        _ _ (Keeps-lift _ (returned _))
        λ meta owned.
          let successor : IsSuccessor K cluster highest (record {
            meta = meta;
            spec = config_spec cluster (next_sequence highest);
            status = empty_status;
          }) =
            record { sequence = refl; owned = owned } in
          search (sent_rules, after_create-Sent, allowed, successor) depth 10
