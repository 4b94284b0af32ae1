-- ===== src/Config/Orderly.antt =====
-- The configs of one cluster as a server keeps them: when they are in order, and that a listing of
-- them is the same however the server orders its answer.
pub mod Creates
pub mod Deletes
pub mod Cleans
pub mod Numbered
pub mod Counted
use mathlib.Core.List.{Permᴰ}
use mathlib.Core.List.Permᴰ
use redkey_operator.Common.{
  String, Bool, true, false, List, [], ◌∷◌, ◌++◌, ◌≡◌, ◌==◌, refl, sym, subst, ◌∙◌, All, arith,
  eq_iff,
}
use redkey_operator.Common.Sort.{sort_slice}
use redkey_operator.Common.Sort.Unordered.{
  Pairwise, Pairwise-perm, All-perm, Apart, sort_slice-unordered, sort_slice-permuted,
}
use redkey_operator.Api.Types.{Types}
use redkey_operator.Api.Redkey.{Redkey, own_key}
use redkey_operator.Api.Config.{RedkeyConfig}
use redkey_operator.Kube.Client.{ok}
use redkey_operator.Kube.Action.{Env, Action, read, pure, ◌>>=◌}
use redkey_operator.Kube.Runs.{Runs, Runs-bind, Runs-read, Runs-pure}
use redkey_operator.Kube.Stored.{Stored}
use redkey_operator.Kube.Stored.Cluster.{StoringCluster, named}
use redkey_operator.Robin.Merge.{cluster_label}
use redkey_operator.Config.Sequence.{before, list_configs}

module _ {T : Types} where
  abbrev pub Named : RedkeyConfig T → RedkeyConfig T → Type 0
  Named a b = named a.meta.name b ≡ false

  -- No two configs have one sequence number or one name, and all stand in the cluster's namespace.
  pub record Orderly (namespace : String) (configs : List (RedkeyConfig T)) : Type 0 where
    pub sequences : Pairwise (Apart before) configs
    pub names : Pairwise Named configs
    pub namespaces : All (λ c. c.meta.namespace ≡ namespace) configs

  pub before_asym : (a b : RedkeyConfig T) → before a b ≡ true → before b a ≡ false
  before_asym a b h = ground arith

  pub before_follows :
      (a b c : RedkeyConfig T) → before a b ≡ true → before c a ≡ true → before c b ≡ true
  before_follows a b c h k = ground arith

  pub before_trans :
      (a b c : RedkeyConfig T) → before b a ≡ false → before c b ≡ false → before c a ≡ false
  before_trans a b c h k = ground arith

  Named-flip : (a b : RedkeyConfig T) → Named a b → Named b a
  Named-flip a b h =
      ground (arith, h, eq_iff a.meta.name b.meta.name, eq_iff b.meta.name a.meta.name)

  Orderly-perm :
      (namespace : String) (xs ys : List (RedkeyConfig T))
      → Permᴰ xs ys
      → Orderly namespace xs
      → Orderly namespace ys
  Orderly-perm namespace xs ys p o = record {
    sequences = Pairwise-perm (Apart before) (λ a b h. ground (arith, h)) xs ys p o.sequences;
    names = Pairwise-perm Named Named-flip xs ys p o.names;
    namespaces = All-perm _ xs ys p o.namespaces;
  }

  pub Orderly-sort_slice :
      (namespace : String) (xs : List (RedkeyConfig T))
      → Orderly namespace xs
      → Orderly namespace (sort_slice before xs)
  Orderly-sort_slice namespace xs o =
      Orderly-perm namespace xs (sort_slice before xs) (Permᴰ.symm (sort_slice-permuted before xs))
        o

  -- The configs by their sequence numbers.
  abbrev pub listed : Stored T → List (RedkeyConfig T)
  listed v = sort_slice before v.configs

module _ {T : Types} {K : Env T} {view : K.World → Stored T} (cluster : Redkey T)
    (storing : StoringCluster K.kube view (own_key cluster)) where
  pub list_configs-Runs :
      (v : Stored T)
      → Orderly cluster.meta.namespace v.configs
      → Runs view
          (list_configs K cluster)
          v
          (λ configs v' ws. (configs ≡ listed v) × (v' ≡ v) × (ws ≡ []))
  unfolding list_configs
  list_configs-Runs v o =
      Runs-bind _ (λ configs v' ws. (configs ≡ listed v) × (v' ≡ v) × (ws ≡ []))
        (Runs-read _ (λ items. sort_slice before items ≡ listed v)
          (λ w e.
            let ((items, answer, order), same) = storing.configs_read w in
            (
              (
                items,
                answer,
                sym (
                    sort_slice-unordered before before_asym before_follows v.configs items
                      (Permᴰ.symm (subst (λ (x : Stored T). Permᴰ items x.configs) e order))
                      o.sequences),
              ),
              same ∙ e,
            )))
        (λ items v' ws h. rw (h.1, h.2) (Runs-pure _ _ (h.0, refl, refl)))
