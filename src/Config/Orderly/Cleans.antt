-- ===== src/Config/Orderly/Cleans.antt =====
-- cleanupSupersededConfigs on a server that keeps what it is sent.
use redkey_operator.Common.{
  true, List, [], ◌∷◌, ◌++◌, ◌≡◌, refl, sym, ap, ◌∙◌, All, last?, Bool-cases, inl, inr, ◌⊎◌,
}
use redkey_operator.Common.Sort.Edits.{Within_refl}
use redkey_operator.Api.Types.{Types}
use redkey_operator.Api.Redkey.{Redkey, own_key}
use redkey_operator.Api.Config.{RedkeyConfig}
use redkey_operator.Kube.Client.{Write}
use redkey_operator.Kube.Action.{Env}
use redkey_operator.Kube.Runs.{Runs, Runs-bind, Runs-pure}
use redkey_operator.Kube.Stored.{Stored}
use redkey_operator.Kube.Stored.Cluster.{StoringCluster}
use redkey_operator.Config.Sequence.{is_applied}
use redkey_operator.Config.Cleanup.{cleanup_superseded_configs}
use redkey_operator.Config.Cleanup.Suffix.{
  NotApplied, cleanup_superseded_configs-newest_applied, cleanup_superseded_configs-unapplied,
}
use redkey_operator.Config.Orderly.{Orderly, listed}
use redkey_operator.Config.Orderly.Deletes.{Leaves, delete_all-Runs}

-- The newest applied config of a list.
abbrev NewestApplied : {T : Types} → List (RedkeyConfig T) → Type 0
NewestApplied {T} xs =
    (older : List (RedkeyConfig T)) × (a : RedkeyConfig T) × (newer : List (RedkeyConfig T)) × (xs
      ≡ older ++ a ∷ newer)
    × (is_applied a ≡ true)
    × All NotApplied newer

newest_applied : {T : Types} (xs : List (RedkeyConfig T)) → All NotApplied xs ⊎ NewestApplied xs
newest_applied [] = inl tt
newest_applied (c ∷ xs) = elim (newest_applied xs) [
  | inr (older, a, newer, e, applied, rest) ↦
      inr (c ∷ older, a, newer, ap (λ ys. c ∷ ys) e, applied, rest)
  | inl none_applied ↦ elim (Bool-cases (is_applied c)) [
    | inl e ↦ inr ([], c, xs, refl, e, none_applied)
    | inr e ↦ inl (e, none_applied)
  ]
]

last?-append :
    {A : Type 0} (xs : List A) (y : A) (ys : List A) → last? (xs ++ y ∷ ys) ≡ last? (y ∷ ys)
last?-append [] y ys = refl
last?-append (x ∷ []) y ys = refl
last?-append (x ∷ z ∷ xs) y ys = last?-append (z ∷ xs) y ys

-- Nothing is left to clean up.
abbrev pub Clean : {T : Types} → List (RedkeyConfig T) → Type 0
Clean {T} configs =
    (c : RedkeyConfig T) × (rest : List (RedkeyConfig T)) × (configs ≡ c ∷ rest)
    × All NotApplied rest

-- The listing is what is returned, and its newest config is the one that it was.
abbrev pub Cleaned :
    {T : Types} → Redkey T → Stored T → List (RedkeyConfig T) → Stored T → List (Write T) → Type 0
Cleaned cluster v kept v' ws =
    Leaves cluster v kept v' × Clean kept × (last? kept ≡ last? (listed v))

module _ {T : Types} {K : Env T} {view : K.World → Stored T} (cluster : Redkey T)
    (storing : StoringCluster K.kube view (own_key cluster)) where
  pub cleanup_superseded_configs-Runs :
      (v : Stored T) (c : RedkeyConfig T) (rest : List (RedkeyConfig T))
      → Orderly cluster.meta.namespace v.configs
      → listed v ≡ c ∷ rest
      → Runs view (cleanup_superseded_configs K (c ∷ rest)) v (Cleaned cluster v)
  cleanup_superseded_configs-Runs v c rest o e = elim (newest_applied rest) [
    | inl unapplied ↦ rw (cleanup_superseded_configs-unapplied K c rest unapplied) (
        Runs-pure (c ∷ rest) (Cleaned cluster v)
          ((e, o, refl, Within_refl v.configs), (c, rest, refl, unapplied), ap last? (sym e)))
    | inr (older, a, newer, split, applied, unapplied) ↦
        rw (split, cleanup_superseded_configs-newest_applied K c older newer a applied unapplied)
          (Runs-bind _ (Cleaned cluster v)
            (delete_all-Runs cluster storing (c ∷ older) (a ∷ newer) v o
              (e ∙ ap (λ xs. c ∷ xs) split))
            (λ u v' ws leaves. Runs-pure (a ∷ newer) _ (
              leaves,
              (a, newer, refl, unapplied),
              sym (ap last? (e ∙ ap (λ xs. c ∷ xs) split) ∙ last?-append (c ∷ older) a newer),
            )))
  ]
