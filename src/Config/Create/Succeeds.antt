-- ===== src/Config/Create/Succeeds.antt =====
-- What a creation that succeeds has sent.
use redkey_operator.Common.{Option, [], ◌∷◌, ◌++◌, ◌≡◌, refl, ap, ◌∙◌}
use redkey_operator.Common.Int.{IsInt64}
use redkey_operator.Api.Types.{Types}
use redkey_operator.Api.Meta.{ObjectMeta}
use redkey_operator.Api.Config.{RedkeyConfig}
use redkey_operator.Api.Redkey.{Redkey}
use redkey_operator.Kube.Client.{create, of_config, Result, Error, ok, err}
use redkey_operator.Kube.Laws.{OwnerLaw}
use redkey_operator.Kube.Action.{Env, State, already_exists}
use redkey_operator.Kube.Trace.{
  Trace, Silent, Only, Trace-bind, Trace-pure, Trace-fail, Trace-attempt-send, Trace-lift_with,
  Trace-if, Trace-emit,
}
use redkey_operator.Config.Create.{
  next_sequence, config_spec, config_meta, empty_status, after_create, create_new_config,
}
use redkey_operator.Config.Create.Writes.{IsSuccessor}
use redkey_operator.Config.Create.Snapshot.{number_after, IsSnapshot, IsSuccessor-IsSnapshot}

module _ {T : Types} (K : Env T) where
  after_create-Trace :
      (highest : Option (RedkeyConfig T)) (r : Result (Error K.ApiError) (Unit {0}))
      → Trace (after_create K highest r) Silent
  unfolding after_create
  after_create-Trace highest (ok u) = Trace-emit _
  after_create-Trace highest (err e) =
      Trace-if (already_exists K e) Silent (Trace-pure tt Silent refl) (Trace-fail e Silent)

  abbrev made_from : Redkey T → Option (RedkeyConfig T) → ObjectMeta T → RedkeyConfig T
  made_from cluster highest meta = record {
    meta = meta;
    spec = config_spec cluster (next_sequence highest);
    status = empty_status;
  }

  pub create_new_config-Trace :
      (cluster : Redkey T) (highest : Option (RedkeyConfig T))
      → Trace (create_new_config K cluster highest) (λ u ws.
        (c : RedkeyConfig T) × IsSuccessor K cluster highest c × (ws ≡ create (of_config c) ∷ []))
  unfolding create_new_config
  create_new_config-Trace cluster highest =
      Trace-bind
        (λ meta ws.
          (K.set_controller_reference cluster.meta (config_meta cluster (next_sequence highest))
            ≡ ok meta)
          × (ws ≡ []))
        (λ meta u ws. ws ≡ create (of_config (made_from cluster highest meta)) ∷ []) _
        (Trace-lift_with _)
        (λ meta.
          Trace-bind (Only (create (of_config (made_from cluster highest meta)))) (λ r. Silent) _
            (Trace-attempt-send _) (λ r. after_create-Trace highest r)
            (λ a b ws vs e f. rw (e, f) refl))
        (λ meta b ws vs e f. (
          made_from cluster highest meta,
          record { sequence = refl; owned = e.0 },
          rw (e.1, f) refl,
        ))

  -- Where SetControllerReference changes nothing but the owner references, and the number after the
  -- highest fits into an int64: a creation that succeeds has sent one write, to create a config
  -- with every setting of the cluster. Its sequence number is 1, or one more than the highest; its
  -- name is the cluster's with that number; its labels and annotations are those that the cluster
  -- asks for, but for the cluster's name and the cluster's generation; and it has passed through
  -- SetControllerReference for the cluster.
  pub create_new_config-writes :
      (law : OwnerLaw K.kube) (cluster : Redkey T) (highest : Option (RedkeyConfig T)) (s : State K)
      (u : Unit {0}) (s' : State K)
      → IsInt64 (number_after highest)
      → (create_new_config K cluster highest).run s ≡ (ok u, s')
      → (c : RedkeyConfig T) × IsSnapshot K cluster highest c
        × (s'.sent ≡ s.sent ++ create (of_config c) ∷ [])
  create_new_config-writes law cluster highest s u s' fits h =
      let (ws, eq, (c, successor, same)) = (create_new_config-Trace cluster highest).at s u s' h in
      (
        c,
        IsSuccessor-IsSnapshot K law cluster highest c fits successor,
        eq ∙ ap (λ xs. s.sent ++ xs) same,
      )
