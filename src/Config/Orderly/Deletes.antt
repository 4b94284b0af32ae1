-- ===== src/Config/Orderly/Deletes.antt =====
-- delete_all on a server that keeps what it is sent: the configs that were listed first are gone.
use redkey_operator.Common.{
  true, List, [], ◌∷◌, ◌++◌, ◌≡◌, refl, ap, subst, ◌∙◌, eq_refl, inl, inr, ◌⊎◌, if◌then◌else◌,
}
use redkey_operator.Common.Sort.Edits.{
  without, Within, Within_refl, Within_trans, without-Within, without_none, All-without,
  Pairwise-without, sort_slice-without,
}
use redkey_operator.Common.Sort.Unordered.{Apart}
use redkey_operator.Api.Types.{Types}
use redkey_operator.Api.Redkey.{Redkey, own_key}
use redkey_operator.Api.Config.{RedkeyConfig}
use redkey_operator.Kube.Client.{Result, Error, ok, err, Write}
use redkey_operator.Kube.Action.{Env, Action, fail, not_found}
use redkey_operator.Kube.Does.{lifted}
use redkey_operator.Kube.Runs.{Runs, Runs-bind, Runs-weaken, Runs-pure, Runs-emit}
use redkey_operator.Kube.Runs.Sends.{Runs-attempt-send}
use redkey_operator.Kube.Stored.{Stored}
use redkey_operator.Kube.Stored.Cluster.{StoringCluster, named}
use redkey_operator.Config.Sequence.{before}
use redkey_operator.Config.Cleanup.{config_key, delete_superseded, delete_all}
use redkey_operator.Config.Orderly.{
  Orderly, Named, listed, before_asym, before_trans, Orderly-sort_slice,
}

-- Accepted, or there was none.
abbrev Gone : {T : Types} (K : Env T) → Result (Error K.ApiError) (Unit {0}) → Type 0
Gone K (ok u) = Unit
Gone K (err e) = not_found K e ≡ true

abbrev remove : {T : Types} → RedkeyConfig T → Stored T → Stored T
remove c v = record v { configs = without (named c.meta.name) v.configs }

module _ {T : Types} (cluster : Redkey T) where
  -- The configs are what a listing shows, and they are in order.
  abbrev pub Leaves : Stored T → List (RedkeyConfig T) → Stored T → Type 0
  Leaves v kept v' =
      (listed v' ≡ kept)
      × Orderly cluster.meta.namespace v'.configs
      × (v' ≡ record v { configs = v'.configs })
      × Within v'.configs v.configs

  removed :
      (v : Stored T) (c : RedkeyConfig T) (rest : List (RedkeyConfig T))
      → Orderly cluster.meta.namespace v.configs
      → listed v ≡ c ∷ rest
      → listed (remove c v) ≡ rest
  removed v c rest o e =
      sort_slice-without before (named c.meta.name) before_asym before_trans v.configs
      ∙ (ap (without (named c.meta.name)) e
          ∙ rw (eq_refl c.meta.name) (
              without_none (named c.meta.name) rest
                (subst (Orderly cluster.meta.namespace) e
                  (Orderly-sort_slice cluster.meta.namespace v.configs o)).names.0))

  Orderly-remove :
      (v : Stored T) (c : RedkeyConfig T)
      → Orderly cluster.meta.namespace v.configs
      → Orderly cluster.meta.namespace (remove c v).configs
  Orderly-remove v c o = record {
    sequences = Pairwise-without _ (Apart before) v.configs o.sequences;
    names = Pairwise-without _ Named v.configs o.names;
    namespaces = All-without _ _ v.configs o.namespaces;
  }

Gone-lifted :
    {T : Types} (K : Env T) (r : Result K.ApiError (Unit {0}))
    → (r ≡ ok tt) ⊎ ((e : K.ApiError) × (r ≡ err e) × (K.is_not_found e ≡ true))
    → Gone K (lifted r)
Gone-lifted K r (inl e) = rw e tt
Gone-lifted K r (inr (e, h, missing)) = rw h missing

module _ {T : Types} {K : Env T} {view : K.World → Stored T} where
  after_delete :
      (r : Result (Error K.ApiError) (Unit {0})) (m n : Action K (Unit {0})) (v : Stored T)
      (Q : Unit {0} → Stored T → List (Write T) → Type 0)
      → Gone K r
      → Runs view m v Q
      → Runs view n v Q
      → Runs view (elim r [ ok _ ↦ m | err e ↦ if not_found K e then n else fail e ]) v Q
  after_delete (ok u) m n v Q g counted gone = counted
  after_delete (err e) m n v Q g counted gone = rw g gone

  module _ (cluster : Redkey T) (storing : StoringCluster K.kube view (own_key cluster)) where
    delete_superseded-Runs :
        (v : Stored T) (c : RedkeyConfig T)
        → c.meta.namespace ≡ cluster.meta.namespace
        → Runs view (delete_superseded K c) v (λ u v' ws. v' ≡ remove c v)
    unfolding delete_superseded
    delete_superseded-Runs v c here =
        Runs-bind _ (λ u v' ws. v' ≡ remove c v)
          (Runs-attempt-send _ (Gone K) (λ v'. v' ≡ remove c v)
            (λ w e.
              let (answer, eq) = storing.config_deleted (config_key c) w here in
              (Gone-lifted K _ answer, eq ∙ ap (remove c) e)))
          (λ r v' ws h. rw (h.1) (
            after_delete r _ _ (remove c v) _ h.0 (Runs-weaken _ _ (λ u v' ws h. h.0) (Runs-emit _))
              (Runs-pure tt _ refl)))

    pub delete_all-Runs :
        (older kept : List (RedkeyConfig T)) (v : Stored T)
        → Orderly cluster.meta.namespace v.configs
        → listed v ≡ older ++ kept
        → Runs view (delete_all K older) v (λ u v' ws. Leaves cluster v kept v')
    unfolding delete_all
    delete_all-Runs [] kept v o e = Runs-pure tt _ (e, o, refl, Within_refl v.configs)
    delete_all-Runs (c ∷ older) kept v o e =
        Runs-bind _ (λ u v' ws. Leaves cluster v kept v')
          (delete_superseded-Runs v c
            (subst (Orderly cluster.meta.namespace) e
              (Orderly-sort_slice cluster.meta.namespace v.configs o)).namespaces.0)
          (λ u v' ws h. rw h (
            Runs-weaken _ (λ u v' ws. Leaves cluster v kept v')
              (λ u v' ws l.
                (l.0, l.1, l.2, Within_trans (without-Within (named c.meta.name) v.configs) l.3))
              (delete_all-Runs older kept (remove c v) (Orderly-remove cluster v c o)
                (removed cluster v c (older ++ kept) o e))))
