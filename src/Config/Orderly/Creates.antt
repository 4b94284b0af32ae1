-- ===== src/Config/Orderly/Creates.antt =====
-- createNewConfig on a server that keeps what it is sent.
use redkey_operator.Common.{
  true, false, Option, none, some, List, [], ◌∷◌, ◌++◌, ◌≡◌, refl, sym, ap, subst, ◌∙◌, ◌⊎◌, inl,
  inr, All, All-map, last?, arith,
}
use redkey_operator.Common.Int.{ℤ, pos, ◌+ℤ◌, ◌<ℤ◌, IsInt64}
use redkey_operator.Common.GoMap.{nil, made, lookup}
use redkey_operator.Common.Sort.{sort_slice}
use redkey_operator.Common.Sort.Edits.{Within, Within_trans, insert_sorted_last}
use redkey_operator.Common.Sort.Unordered.{All-perm, Apart, sort_slice-permuted}
use redkey_operator.Api.Types.{Types}
use redkey_operator.Api.Meta.{ObjectMeta}
use redkey_operator.Api.Redkey.{Redkey, own_key}
use redkey_operator.Api.Config.{RedkeyConfig}
use redkey_operator.Kube.Client.{ok, create, of_config}
use redkey_operator.Kube.Laws.{OwnerLaw}
use redkey_operator.Kube.Action.{Env, send}
use redkey_operator.Kube.Runs.{Runs, Runs-bind, Runs-weaken, Runs-lift, Runs-attempt, Runs-emit}
use redkey_operator.Kube.Runs.Sends.{Runs-send}
use redkey_operator.Kube.Stored.{Stored}
use redkey_operator.Kube.Stored.Cluster.{StoringCluster, named}
use redkey_operator.Robin.Merge.{deref_map, cluster_label}
use redkey_operator.Robin.Merge.Precedence.{lookup-merge_meta}
use redkey_operator.Config.Sequence.{before}
use redkey_operator.Config.Sequence.Order.{next_sequence-greatest}
use redkey_operator.Config.Create.{
  next_sequence, config_spec, config_meta, empty_status, after_create, create_new_config,
}
use redkey_operator.Config.Orderly.{Orderly, listed}

empty_last? : {A : Type 0} (P : A → Type 0) (xs : List A) → last? xs ≡ none → All P xs
empty_last? P [] e = tt
empty_last? P (x ∷ []) e = absurd (cc)
empty_last? P (x ∷ y ∷ ys) e = absurd (there y ys e)
  where
    there : {A : Type 0} (y : A) (ys : List A) → last? (y ∷ ys) ≡ none → ⊥
    there y [] e = cc
    there y (z ∷ zs) e = there z zs e

module _ {T : Types} where
  lookup-cluster_label :
      (cluster : Redkey T) (seq : ℤ)
      → lookup cluster_label (config_meta cluster seq).labels ≡ some cluster.meta.name
  unfolding config_meta
  lookup-cluster_label cluster seq =
      lookup-merge_meta (deref_map cluster.spec.labels) nil
        (made ((cluster_label, cluster.meta.name) ∷ [])) cluster_label

  config_meta-namespace :
      (cluster : Redkey T) (seq : ℤ) → (config_meta cluster seq).namespace ≡ cluster.meta.namespace
  unfolding config_meta
  config_meta-namespace cluster seq = refl

  -- What a creation needs of the configs that are there: the next sequence number fits, and no
  -- config has the name that it gives.
  pub record Room (cluster : Redkey T) (configs : List (RedkeyConfig T)) : Type 0 where
    pub fits :
        (h : RedkeyConfig T)
        → last? (sort_slice before configs) ≡ some h
        → IsInt64 (h.spec.sequence +ℤ pos 1)
    pub fresh :
        All
          (λ d.
            named (config_meta cluster (next_sequence (last? (sort_slice before configs)))).name d
            ≡ false)
          configs

  pub all_before :
      (configs : List (RedkeyConfig T)) (highest : Option (RedkeyConfig T)) (s : ℤ)
      → last? (sort_slice before configs) ≡ highest
      → ((h : RedkeyConfig T) → highest ≡ some h → IsInt64 (h.spec.sequence +ℤ pos 1))
      → s ≡ next_sequence highest
      → All (λ c. c.spec.sequence <ℤ s) (sort_slice before configs)
  all_before configs none s e fits same = empty_last? _ _ e
  all_before configs (some h) s e fits same =
      rw same (next_sequence-greatest configs h e (fits h refl))

  -- The config that createNewConfig makes next.
  abbrev pub IsNext : Redkey T → List (RedkeyConfig T) → RedkeyConfig T → Type 0
  IsNext cluster configs c =
      (c.spec.sequence ≡ next_sequence (last? (sort_slice before configs)))
      × (c.meta.name ≡ (config_meta cluster c.spec.sequence).name)
      × (c.meta.namespace ≡ cluster.meta.namespace)

  -- The configs after a creation: the new one is listed last.
  abbrev pub Created : Redkey T → Stored T → Stored T → Type 0
  Created cluster v v' =
      (kept : RedkeyConfig T) × (listed v' ≡ listed v ++ kept ∷ [])
      × Orderly cluster.meta.namespace v'.configs
      × (v' ≡ record v { configs = v'.configs })
      × IsNext cluster v.configs kept
      × (v'.configs ≡ kept ∷ v.configs)

  abbrev highest : Stored T → Option (RedkeyConfig T)
  highest v = last? (listed v)

  abbrev sent : Redkey T → Stored T → ObjectMeta T → RedkeyConfig T
  sent cluster v meta = record {
    meta = meta;
    spec = config_spec cluster (next_sequence (highest v));
    status = empty_status;
  }

  created_listed :
      (cluster : Redkey T) (v : Stored T) (kept : RedkeyConfig T)
      → Room cluster v.configs
      → kept.spec.sequence ≡ next_sequence (highest v)
      → listed (record v { configs = kept ∷ v.configs }) ≡ listed v ++ kept ∷ []
  unfolding sort_slice
  created_listed cluster v kept room same = insert_sorted_last before kept (listed v) (
      All-map (λ c. c.spec.sequence <ℤ kept.spec.sequence) (λ c. before c kept ≡ true)
        (λ c h. ground (arith, h)) (listed v)
        (all_before v.configs (highest v) kept.spec.sequence refl room.fits same))

  pub created-Orderly :
      (cluster : Redkey T) (v : Stored T) (kept : RedkeyConfig T)
      → Orderly cluster.meta.namespace v.configs
      → Room cluster v.configs
      → kept.spec.sequence ≡ next_sequence (highest v)
      → kept.meta.name ≡ (config_meta cluster (next_sequence (highest v))).name
      → kept.meta.namespace ≡ cluster.meta.namespace
      → Orderly cluster.meta.namespace (kept ∷ v.configs)
  created-Orderly cluster v kept o room same name namespace = record {
    sequences = (
      All-perm (Apart before kept) (listed v) v.configs (sort_slice-permuted before v.configs) (
          All-map (λ c. c.spec.sequence <ℤ kept.spec.sequence) (Apart before kept)
            (λ c h. ground (arith, h)) (listed v)
            (all_before v.configs (highest v) kept.spec.sequence refl room.fits same)),
      o.sequences,
    );
    names = (subst (λ n. All (λ d. named n d ≡ false) v.configs) (sym name) room.fresh, o.names);
    namespaces = (namespace, o.namespaces);
  }

-- The configs are old ones, and at most one next one.
abbrev pub Succession :
    {T : Types} → Redkey T → List (RedkeyConfig T) → List (RedkeyConfig T) → Type 0
Succession {T} cluster xs ys =
    Within ys xs ⊎ ((kept : RedkeyConfig T) × IsNext cluster xs kept × Within ys (kept ∷ xs))

pub Succession-Within :
    {T : Types} (cluster : Redkey T) (xs ys zs : List (RedkeyConfig T))
    → Succession cluster xs ys
    → Within zs ys
    → Succession cluster xs zs
Succession-Within cluster xs ys zs (inl w) v = inl (Within_trans w v)
Succession-Within cluster xs ys zs (inr (kept, next, w)) v = inr (kept, next, Within_trans w v)

module _ {T : Types} {K : Env T} {view : K.World → Stored T} (cluster : Redkey T)
    (storing : StoringCluster K.kube view (own_key cluster)) (owner : OwnerLaw K.kube) where
  created :
      (v : Stored T) (meta : ObjectMeta T)
      → Orderly cluster.meta.namespace v.configs
      → Room cluster v.configs
      → K.set_controller_reference cluster.meta (config_meta cluster (next_sequence (highest v)))
        ≡ ok meta
      → Runs view
          (send {K = K} (create (of_config (sent cluster v meta))))
          v
          (λ u v' ws. Created cluster v v')
  unfolding config_spec
  created v meta o room owned =
      Runs-weaken _ (λ u v' ws. Created cluster v v') (λ u v' ws h. h.0)
        (Runs-send _ (Created cluster v) (λ w e.
          let k = owner.keeps _ _ _ owned in
          let (took, (kept, same, eq)) =
            storing.config_created (sent cluster v meta) w (k.1 ∙ config_meta-namespace cluster _)
              (ap (lookup cluster_label) k.2 ∙ lookup-cluster_label cluster _)
              (subst (λ (x : Stored T). All (λ d. named meta.name d ≡ false) x.configs) (sym e)
                (subst (λ n. All (λ d. named n d ≡ false) v.configs) (sym k.0) room.fresh)) in
          (
            took,
            subst (Created cluster v)
                (sym (eq ∙ ap (λ (x : Stored T). record x { configs = kept ∷ x.configs }) e))
                (
                  kept,
                  created_listed cluster v kept room same.sequence,
                  created-Orderly cluster v kept o room same.sequence (same.name ∙ k.0)
                      (same.namespace ∙ k.1 ∙ config_meta-namespace cluster _),
                  refl,
                  (
                    same.sequence,
                    same.name ∙ k.0 ∙ ap (λ n. (config_meta cluster n).name) (sym same.sequence),
                    same.namespace ∙ k.1 ∙ config_meta-namespace cluster _,
                  ),
                  refl,
                ),
          )))

  pub create_new_config-Runs :
      (v : Stored T) (meta : ObjectMeta T)
      → Orderly cluster.meta.namespace v.configs
      → Room cluster v.configs
      → K.set_controller_reference cluster.meta (config_meta cluster (next_sequence (highest v)))
        ≡ ok meta
      → Runs view
          (create_new_config K cluster (last? (listed v)))
          v
          (λ u v' ws. Created cluster v v')
  unfolding create_new_config after_create
  create_new_config-Runs v meta o room owned =
      Runs-bind _ (λ u v' ws. Created cluster v v') (Runs-lift _ meta owned)
        (λ m v' ws h.
          rw (h.0, h.1)
            (Runs-bind _ (λ u v' ws. Created cluster v v')
              (Runs-attempt _ _ (created v meta o room owned))
              (λ r v1 ws (u, e, there). rw e (
                Runs-weaken _ (λ u v' ws. Created cluster v v') (λ u v' ws h. rw (h.0) there)
                  (Runs-emit _)))))
