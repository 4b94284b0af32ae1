-- ===== src/Config/Orderly/Counted.antt =====
-- Configs whose sequence numbers are at most the number of reconciles so far.
use mathlib.Core.List.Permᴰ
use redkey_operator.Common.{
  ℕ, suc, ◌<◌, Option, none, some, List, [], ◌∷◌, ◌≡◌, refl, sym, ap, ◌∙◌, ◌<>◌, inl, inr, All,
  All-map, last?, arith,
}
use redkey_operator.Common.Int.{
  ℤ, pos, negsuc, ◌+ℤ◌, ◌<ℤ◌, ◌≤ℤ◌, IsInt64, two_63, wrap64_exact, int_laws,
}
use redkey_operator.Common.Decimal.{format_int}
use redkey_operator.Common.Sort.{sort_slice, All-last}
use redkey_operator.Common.Sort.Edits.{All-Within, Pairwise-Within}
use redkey_operator.Common.Sort.Unordered.{Pairwise, Apart, All-perm, sort_slice-permuted}
use redkey_operator.Api.Types.{Types}
use redkey_operator.Api.Redkey.{Redkey, own_key}
use redkey_operator.Api.Config.{RedkeyConfig}
use redkey_operator.Kube.Stored.{Stored}
use redkey_operator.Config.Sequence.{before}
use redkey_operator.Config.Create.{config_meta, next_sequence}
use redkey_operator.Config.Orderly.Creates.{Succession, created-Orderly}
use redkey_operator.Config.Orderly.Numbered.{Numbered, Numbered-Orderly, Numbered-Room}

module _ {T : Types} (cluster : Redkey T) where
  abbrev UpTo : ℕ → RedkeyConfig T → Type 0
  UpTo n c = (pos 0 <ℤ c.spec.sequence) × (c.spec.sequence ≤ℤ pos n)

  -- Every config has the name that createNewConfig gives, no two have one sequence number, and
  -- these run from 1 to at most `n`.
  pub record Counted (n : ℕ) (configs : List (RedkeyConfig T)) : Type 0 where
    pub sequences : Pairwise (Apart before) configs
    pub names : All (λ c. c.meta.name ≡ (config_meta cluster c.spec.sequence).name) configs
    pub namespaces : All (λ c. c.meta.namespace ≡ cluster.meta.namespace) configs
    pub bounds : All (λ c. (pos 0 <ℤ c.spec.sequence) × (c.spec.sequence ≤ℤ pos n)) configs

  fits :
      (n : ℕ) (s : ℤ) → suc n < two_63 → pos 0 <ℤ s → s ≤ℤ pos n → IsInt64 s × IsInt64 (s +ℤ pos 1)
  unfolding ◌+ℤ◌
  fits n (pos m) room positive small = grind (arith, room, positive, small)
  fits n (negsuc m) room positive small = omega (int_laws, room, positive, small)

  pub Counted-Numbered :
      (n : ℕ) (configs : List (RedkeyConfig T))
      → suc n < two_63
      → Counted n configs
      → Numbered cluster configs
  Counted-Numbered n configs room c = record {
    sequences = c.sequences;
    names = c.names;
    namespaces = c.namespaces;
    in_range =
        All-map (UpTo n) _ (λ d (positive, small). fits n d.spec.sequence room positive small)
          configs c.bounds;
  }

  -- The next sequence number is at most one more.
  next-UpTo :
      (n : ℕ) (configs : List (RedkeyConfig T)) (highest : Option (RedkeyConfig T))
      → suc n < two_63
      → last? (sort_slice before configs) ≡ highest
      → Counted n configs
      → (pos 0 <ℤ next_sequence highest) × (next_sequence highest ≤ℤ pos (suc n))
  unfolding next_sequence
  next-UpTo n configs none room e c = omega arith
  next-UpTo n configs (some h) room e c =
      let (positive, small) = highest_bound configs h e c in
      rw (wrap64_exact _ (fits n h.spec.sequence room positive small).1)
        (omega (int_laws, positive, small))
    where
      highest_bound :
          (configs : List (RedkeyConfig T)) (h : RedkeyConfig T)
          → last? (sort_slice before configs) ≡ some h
          → Counted n configs
          → UpTo n h
      highest_bound configs h e c =
          All-last (UpTo n) (sort_slice before configs) h
            (All-perm _ configs (sort_slice before configs)
              (Permᴰ.symm (sort_slice-permuted before configs)) c.bounds)
            e

  wider : (n : ℕ) (c : RedkeyConfig T) → UpTo n c → UpTo (suc n) c
  wider n c (positive, small) = omega (int_laws, positive, small)

  pub Counted-Succession :
      (n : ℕ) (v : Stored T) (ys : List (RedkeyConfig T))
      → suc n < two_63
      → Counted n v.configs
      → Succession cluster v.configs ys
      → Counted (suc n) ys
  Counted-Succession n v ys room c (inl w) = record {
    sequences = Pairwise-Within (Apart before) w c.sequences;
    names = All-Within _ w c.names;
    namespaces = All-Within _ w c.namespaces;
    bounds = All-Within _ w (All-map (UpTo n) (UpTo (suc n)) (wider n) v.configs c.bounds);
  }
  Counted-Succession n v ys room c (inr (kept, (sequence, name, namespace), w)) =
      let numbered = Counted-Numbered n v.configs room c in
      let orderly =
        created-Orderly cluster v kept (Numbered-Orderly cluster v.configs numbered)
          (Numbered-Room cluster v.configs numbered) sequence
          (name ∙ ap (λ s. (config_meta cluster s).name) sequence) namespace in
      record {
        sequences = Pairwise-Within (Apart before) w orderly.sequences;
        names =
            All-Within (λ d. d.meta.name ≡ (config_meta cluster d.spec.sequence).name) w
              (name, c.names);
        namespaces =
            All-Within (λ d. d.meta.namespace ≡ cluster.meta.namespace) w (namespace, c.namespaces);
        bounds = All-Within (UpTo (suc n)) w (
          rw sequence (next-UpTo n v.configs _ room refl c),
          All-map (UpTo n) (UpTo (suc n)) (wider n) v.configs c.bounds,
        );
      }

-- What is counted are the configs of a name in a namespace, whatever the spec and the status.
pub Counted-own_key :
    {T : Types} (c c' : Redkey T) (n : ℕ) (configs : List (RedkeyConfig T))
    → own_key c' ≡ own_key c
    → Counted c n configs
    → Counted c' n configs
unfolding config_meta
Counted-own_key c c' n configs same h = record {
  sequences = h.sequences;
  names =
      All-map _ _ (λ d e. e ∙ ap (λ k. k.name <> "-" <> format_int d.spec.sequence) (sym same))
        configs h.names;
  namespaces = All-map _ _ (λ d e. e ∙ ap (λ k. k.namespace) (sym same)) configs h.namespaces;
  bounds = h.bounds;
}

-- The same configs with other statuses.
abbrev pub Reported : {T : Types} → List (RedkeyConfig T) → List (RedkeyConfig T) → Type 0
Reported [] [] = Unit
Reported [] (_ ∷ _) = ⊥
Reported (_ ∷ _) [] = ⊥
Reported (x ∷ xs) (y ∷ ys) = (y.meta ≡ x.meta) × (y.spec ≡ x.spec) × Reported xs ys

module _ {T : Types} where
  All-Reported :
      (P : RedkeyConfig T → Type 0)
      → ((x y : RedkeyConfig T) → y.meta ≡ x.meta → y.spec ≡ x.spec → P x → P y)
      → (xs ys : List (RedkeyConfig T)) → Reported xs ys
      → All P xs
      → All P ys
  All-Reported P f [] [] r h = tt
  All-Reported P f [] (_ ∷ _) r h = absurd r
  All-Reported P f (_ ∷ _) [] r h = absurd r
  All-Reported P f (x ∷ xs) (y ∷ ys) r h = (f x y r.0 r.1 h.0, All-Reported P f xs ys r.2 h.1)

  Apart-Reported :
      (xs ys : List (RedkeyConfig T))
      → Reported xs ys
      → Pairwise (Apart before) xs
      → Pairwise (Apart before) ys
  Apart-Reported [] [] r h = tt
  Apart-Reported [] (_ ∷ _) r h = absurd r
  Apart-Reported (_ ∷ _) [] r h = absurd r
  Apart-Reported (x ∷ xs) (y ∷ ys) r h = (
    All-Reported (Apart before y) (λ a b m s k. rw s k) xs ys r.2
        (All-map (Apart before x) (Apart before y) (λ a k. rw (r.1) k) xs h.0),
    Apart-Reported xs ys r.2 h.1,
  )

  pub Counted-Reported :
      (c : Redkey T) (n : ℕ) (xs ys : List (RedkeyConfig T))
      → Reported xs ys
      → Counted c n xs
      → Counted c n ys
  Counted-Reported c n xs ys r h = record {
    sequences = Apart-Reported xs ys r h.sequences;
    names =
        All-Reported (λ d. d.meta.name ≡ (config_meta c d.spec.sequence).name)
          (λ x y m s k. rw (m, s) k) xs ys r h.names;
    namespaces =
        All-Reported (λ d. d.meta.namespace ≡ c.meta.namespace) (λ x y m s k. rw m k) xs ys r
          h.namespaces;
    bounds = All-Reported (UpTo c n) (λ x y m s k. rw s k) xs ys r h.bounds;
  }
