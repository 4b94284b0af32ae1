-- ===== src/Reconcile/Settles/Stages.antt =====
-- The steps of reconcile_running on a server that keeps what it is sent.
use mathlib.Core.List.{append-nil}
use redkey_operator.Common.{
  inl, inr, String, false, ◌||◌, Option, none, some, List, [], ◌∷◌, ◌++◌, ◌≡◌, refl, sym, ap, subst,
  ◌∙◌, last?, length, eqb, arith,
}
use redkey_operator.Common.Sort.Edits.{Within, Within_refl}
use redkey_operator.Api.Types.{Types, Time}
use redkey_operator.Api.Meta.{ObjectMeta}
use redkey_operator.Api.Redkey.{Redkey, RedkeyStatus, own_key}
use redkey_operator.Api.Config.{RedkeyConfig}
use redkey_operator.Kube.Client.{ok, Write, update_status}
use redkey_operator.Kube.Action.{Env, Action}
use redkey_operator.Kube.Laws.{RetryLaw, OwnerLaw}
use redkey_operator.Kube.Runs.{
  Runs, Runs-bind, Runs-weaken, Runs-pure, Runs-read, Runs-clock, Runs-attempt, Runs-if, Runs-retry,
}
use redkey_operator.Kube.Runs.Sends.{Runs-send_status}
use redkey_operator.Kube.Stored.{Stored}
use redkey_operator.Kube.Stored.Cluster.{StoringCluster}
use redkey_operator.Config.Sequence.{needs_new_config, select_active_config, first_in_progress}
use redkey_operator.Config.Create.{config_meta, next_sequence}
use redkey_operator.Config.Orderly.{Orderly, listed, list_configs-Runs}
use redkey_operator.Config.Orderly.Creates.{Succession, Room, create_new_config-Runs}
use redkey_operator.Status.Aggregate.{
  aggregated_status, refresh_status, aggregate_with, aggregate_status,
}
use redkey_operator.Reconcile.{stage, ensure_config}
use redkey_operator.Reconcile.Steady.{refreshed}

module _ {T : Types} {K : Env T} {V : Type 0} {view : K.World → V} where
  -- A stage adds nothing to an action that succeeds.
  pub stage-Runs :
      {A : Type 0} (name : String) (m : Action K A) (v : V) (Q : A → V → List (Write T) → Type 0)
      → Runs view m v Q
      → Runs view (stage K name m) v Q
  unfolding stage
  stage-Runs name m v Q r =
      Runs-bind _ Q (Runs-attempt m Q r)
        (λ r v' ws (a, e, q). rw e (Runs-pure a _ (subst (Q a v') (sym (append-nil ws)) q)))

abbrev pub Nonempty : {A : Type 0} → List A → Type 0
Nonempty {A} xs = (x : A) × (rest : List A) × (xs ≡ x ∷ rest)

Nonempty-length : {A : Type 0} (xs : List A) → eqb (length xs) 0 ≡ false → Nonempty xs
Nonempty-length [] e = absurd (cc)
Nonempty-length (x ∷ xs) e = (x, xs, refl)

Nonempty-append : {A : Type 0} (xs : List A) (y : A) → Nonempty (xs ++ y ∷ [])
Nonempty-append [] y = (y, [], refl)
Nonempty-append (x ∷ xs) y = (x, xs ++ y ∷ [], refl)

some_or :
    {A : Type 0} (found : Option A) (c : A)
    → (a : A) × (◌≡◌ {A = Option A} (elim found [ some b ↦ some b | none ↦ some c ]) (some a))
some_or (some b) c = (b, refl)
some_or none c = (c, refl)

-- There is an active config where there is one at all.
pub select_active_config-some :
    {T : Types} (c : RedkeyConfig T) (rest : List (RedkeyConfig T))
    → (active : RedkeyConfig T) × (select_active_config (c ∷ rest) ≡ some active)
unfolding select_active_config
select_active_config-some c [] = (c, refl)
select_active_config-some c (d ∷ rest) = some_or (first_in_progress (c ∷ d ∷ rest)) c

-- The listing after a config was created where one is needed.
abbrev pub Ensured : {T : Types} → Redkey T → Stored T → List (RedkeyConfig T) → Stored T → Type 0
Ensured cluster v configs v' =
    (configs ≡ listed v')
    × Nonempty configs
    × Orderly cluster.meta.namespace v'.configs
    × (v' ≡ record v { configs = v'.configs })
    × Succession cluster v.configs v'.configs

-- The one status that is written, at some time, and what the server makes of it.
abbrev pub Refreshed :
    {T : Types} (K : Env T)
    → Redkey T
    → RedkeyConfig T
    → Stored T
    → Stored T
    → List (Write T)
    → Type 0
Refreshed {T} K cluster active v v' ws =
    (kept : RedkeyStatus T) × (kept.observed_generation ≡ cluster.meta.generation)
    × (v' ≡ record v { redkey = some (record cluster { status = kept }) })
    × (t : Time) × (ws ≡ update_status (refreshed K cluster active t) ∷ [])

module _ {T : Types} {K : Env T} {view : K.World → Stored T} (cluster : Redkey T)
    (objects : StoringCluster K.kube view (own_key cluster)) where
  pub ensure_config-Runs :
      (v : Stored T) (meta : ObjectMeta T)
      → OwnerLaw K.kube
      → Orderly cluster.meta.namespace v.configs
      → Room cluster v.configs
      → K.set_controller_reference cluster.meta
          (config_meta cluster (next_sequence (last? (listed v))))
        ≡ ok meta
      → Runs view
          (ensure_config K cluster (listed v))
          v
          (λ configs v' ws. Ensured cluster v configs v')
  unfolding ensure_config
  ensure_config-Runs v meta owner o room owned =
      Runs-if (eqb (length (listed v)) 0 || needs_new_config cluster (last? (listed v))) _ _
        (λ configs v' ws. Ensured cluster v configs v')
        (λ needed.
          Runs-bind _ (λ configs v' ws. Ensured cluster v configs v')
            (stage-Runs _ _ v _ (create_new_config-Runs cluster objects owner v meta o room owned))
            (λ u v1 ws (kept, last, orderly, same, next, more).
              Runs-weaken _ (λ configs v' ws. Ensured cluster v configs v')
                (λ configs v' ws h.
                  rw (h.0, h.1)
                    (
                      refl,
                      subst Nonempty (sym last) (Nonempty-append (listed v) kept),
                      orderly,
                      same,
                      inr (
                        kept,
                        next,
                        subst (λ xs. Within v1.configs xs) more (Within_refl v1.configs),
                      ),
                    ))
                (stage-Runs _ _ v1 _ (list_configs-Runs cluster objects v1 orderly))))
        (λ covered. Runs-pure (listed v) _ (
          refl,
          Nonempty-length (listed v) (ground (arith, covered)),
          o,
          refl,
          inl (Within_refl v.configs),
        ))

  refresh_status-Runs :
      (v : Stored T) (active : RedkeyConfig T)
      → ((w : K.World) → view (K.now w).1 ≡ view w)
      → v.redkey ≡ some cluster
      → Runs view
          (refresh_status K cluster active)
          v
          (λ d v' ws. Refreshed K cluster active v v' ws)
  unfolding refresh_status aggregated_status
  refresh_status-Runs v active calm there =
      Runs-bind _ (λ d v' ws. Refreshed K cluster active v v' ws)
        (Runs-read _ (λ latest. latest ≡ cluster)
          (λ w e.
            let (found, same) =
              objects.redkey_read cluster w (ap (λ (x : Stored T). x.redkey) e ∙ there) in
            ((cluster, found, refl), same ∙ e)))
        (λ latest v' ws h.
          rw (h.0, h.1, h.2)
            (Runs-bind _ (λ d v' ws. Refreshed K cluster active v v' ws) (Runs-clock calm)
              (λ t v' ws h.
                rw (h.0, h.1)
                  (Runs-weaken _ (λ d v' ws. Refreshed K cluster active v v' ws)
                    (λ d v' ws ((kept, observed, same), one). (kept, observed, same, t, one))
                    (Runs-send_status (refreshed K cluster active t)
                      (λ d v'.
                        (kept : RedkeyStatus T) × (kept.observed_generation
                          ≡ cluster.meta.generation)
                        × (v' ≡ record v { redkey = some (record cluster { status = kept }) }))
                      (λ w e.
                        let (kept, observed, took, same) =
                          objects.status_updated (refreshed K cluster active t) cluster w
                            (ap (λ (x : Stored T). x.redkey) e ∙ there) refl in
                        (
                          record cluster { status = kept },
                          took,
                          (
                            kept,
                            observed,
                            same
                                ∙ ap
                                    (λ (x : Stored T). record x {
                                      redkey = some (record cluster { status = kept });
                                    })
                                    e,
                          ),
                        )))))))

  pub aggregate_status-Runs :
      (v : Stored T) (configs : List (RedkeyConfig T)) (active : RedkeyConfig T)
      → RetryLaw K.kube
      → ((w : K.World) → view (K.now w).1 ≡ view w)
      → v.redkey ≡ some cluster
      → select_active_config configs ≡ some active
      → Runs view
          (aggregate_status K cluster configs)
          v
          (λ d v' ws. Refreshed K cluster active v v' ws)
  unfolding aggregate_status aggregate_with
  aggregate_status-Runs v configs active retry calm there chosen = rw chosen (
      Runs-bind _ (λ d v' ws. Refreshed K cluster active v v' ws)
        (Runs-retry _ _ retry (refresh_status-Runs v active calm there))
        (λ d v' ws (kept, observed, same, t, one).
          Runs-pure _ _ (kept, observed, same, t, ap (λ xs. xs ++ []) one)))
