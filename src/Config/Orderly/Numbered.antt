-- ===== src/Config/Orderly/Numbered.antt =====
-- Configs under the names that createNewConfig gives, with sequence numbers of which there is a next
-- one: they are in order, and there is room for another.
use mathlib.Core.Option.{some-injective}
use mathlib.Core.List.Permᴰ
use text.Mathlib.TextLemmas.{append_cancel_left}
use redkey_operator.Common.{
  false, Option, none, some, List, [], ◌∷◌, ◌≡◌, ◌≢◌, refl, sym, ap, subst, ◌∙◌, All, last?, arith,
  String-cases, inl, inr,
}
use redkey_operator.Common.Int.{
  ℤ, pos, ◌+ℤ◌, ◌<ℤ◌, IsInt64, wrap64_exact, pos_part, neg_part, int_laws,
}
use redkey_operator.Common.Decimal.{format_int, parse_int, parse_int-format_int}
use redkey_operator.Common.Sort.{sort_slice, All-last}
use redkey_operator.Common.Sort.Unordered.{Pairwise, All-perm, Apart, sort_slice-permuted}
use redkey_operator.Api.Types.{Types}
use redkey_operator.Api.Redkey.{Redkey}
use redkey_operator.Api.Config.{RedkeyConfig}
use redkey_operator.Kube.Stored.Cluster.{named}
use redkey_operator.Config.Sequence.{before}
use redkey_operator.Config.Create.{config_meta, next_sequence}
use redkey_operator.Config.Orderly.{Orderly, Named}
use redkey_operator.Config.Orderly.Creates.{Room, all_before}

Pairwise-map :
    {A : Type 0} (P : A → Type 0) (R S : A → A → Type 0) (xs : List A)
    → ((a b : A) → P a → P b → R a b → S a b)
    → All P xs
    → Pairwise R xs
    → Pairwise S xs
Pairwise-map P R S [] f h r = tt
Pairwise-map {A} P R S (x ∷ xs) f h r = (each xs h.1 r.0, Pairwise-map P R S xs f h.1 r.1)
  where
    each : (ys : List A) → All P ys → All (R x) ys → All (S x) ys
    each [] k r = tt
    each (y ∷ ys) k r = (f x y h.0 k.0 r.0, each ys k.1 r.1)

All-zip :
    {A : Type 0} (P Q R : A → Type 0)
    → ((a : A) → P a → Q a → R a)
    → (xs : List A) → All P xs
    → All Q xs
    → All R xs
All-zip P Q R f [] h k = tt
All-zip P Q R f (x ∷ xs) h k = (f x h.0 k.0, All-zip P Q R f xs h.1 k.1)

format_int_injective : (a b : ℤ) → IsInt64 a → IsInt64 b → format_int a ≡ format_int b → a ≡ b
format_int_injective a b fits fits' e =
    some-injective a b
      (sym (parse_int-format_int a fits) ∙ (ap parse_int e ∙ parse_int-format_int b fits'))

module _ {T : Types} (cluster : Redkey T) where
  -- Where the configs of a cluster come from createNewConfig, and its counter has not run out.
  pub record Numbered (configs : List (RedkeyConfig T)) : Type 0 where
    pub sequences : Pairwise (Apart before) configs
    pub names : All (λ c. c.meta.name ≡ (config_meta cluster c.spec.sequence).name) configs
    pub namespaces : All (λ c. c.meta.namespace ≡ cluster.meta.namespace) configs
    pub in_range : All (λ c. IsInt64 c.spec.sequence × IsInt64 (c.spec.sequence +ℤ pos 1)) configs

  name_injective :
      (a b : ℤ)
      → IsInt64 a
      → IsInt64 b
      → (config_meta cluster a).name ≡ (config_meta cluster b).name
      → a ≡ b
  unfolding config_meta
  name_injective a b fits fits' e = format_int_injective a b fits fits' (
      append_cancel_left "-" (format_int a) (format_int b)
        (append_cancel_left cluster.meta.name _ _ e))

  abbrev Ours : RedkeyConfig T → Type 0
  Ours c = (c.meta.name ≡ (config_meta cluster c.spec.sequence).name) × IsInt64 c.spec.sequence

  named_apart :
      (d : RedkeyConfig T) (s : ℤ)
      → Ours d
      → IsInt64 s
      → d.spec.sequence ≢ s
      → named (config_meta cluster s).name d ≡ false
  named_apart d s (name, fits) fits' differ =
      elim (String-cases d.meta.name (config_meta cluster s).name) [
        | inl (e, same) ↦ absurd (differ (name_injective _ s fits fits' (sym name ∙ same)))
        | inr (e, other) ↦ e
      ]

  Ours-all : (configs : List (RedkeyConfig T)) → Numbered configs → All Ours configs
  Ours-all configs n = All-zip _ _ Ours (λ c name range. (name, range.0)) configs n.names n.in_range

  Apart-ne : (a b : RedkeyConfig T) → Apart before a b → b.spec.sequence ≢ a.spec.sequence
  Apart-ne a b h e = ground (arith, h, ap pos_part e, ap neg_part e)

  pub Numbered-Orderly :
      (configs : List (RedkeyConfig T)) → Numbered configs → Orderly cluster.meta.namespace configs
  Numbered-Orderly configs n = record {
    sequences = n.sequences;
    names =
        Pairwise-map Ours (Apart before) Named configs
          (λ a b oa ob apart.
            subst (λ x. named x b ≡ false) (sym oa.0)
              (named_apart b a.spec.sequence ob oa.1 (Apart-ne a b apart)))
          (Ours-all configs n) n.sequences;
    namespaces = n.namespaces;
  }

  abbrev next : List (RedkeyConfig T) → ℤ
  next configs = next_sequence (last? (sort_slice before configs))

  pub fits_next :
      (configs : List (RedkeyConfig T)) (h : RedkeyConfig T)
      → Numbered configs
      → last? (sort_slice before configs) ≡ some h
      → IsInt64 (h.spec.sequence +ℤ pos 1)
  fits_next configs h n e =
      (All-last (λ c. IsInt64 c.spec.sequence × IsInt64 (c.spec.sequence +ℤ pos 1))
        (sort_slice before configs) h
        (All-perm _ configs (sort_slice before configs)
          (Permᴰ.symm (sort_slice-permuted before configs)) n.in_range)
        e).1

  next-IsInt64 :
      (highest : Option (RedkeyConfig T))
      → ((h : RedkeyConfig T) → highest ≡ some h → IsInt64 (h.spec.sequence +ℤ pos 1))
      → IsInt64 (next_sequence highest)
  unfolding next_sequence
  next-IsInt64 none fits = omega arith
  next-IsInt64 (some h) fits = rw (wrap64_exact _ (fits h refl)) (fits h refl)

  pub Numbered-Room : (configs : List (RedkeyConfig T)) → Numbered configs → Room cluster configs
  Numbered-Room configs n = record {
    fits = λ h e. fits_next configs h n e;
    fresh =
        All-perm (λ d. named (config_meta cluster (next configs)).name d ≡ false)
          (sort_slice before configs) configs (sort_slice-permuted before configs)
          (All-zip Ours (λ d. d.spec.sequence <ℤ next configs) _
            (λ d ours less.
              named_apart d (next configs) ours (next-IsInt64 _ (λ h e. fits_next configs h n e))
                (λ e. lt_ne d.spec.sequence (next configs) less e))
            (sort_slice before configs)
            (All-perm Ours configs (sort_slice before configs)
              (Permᴰ.symm (sort_slice-permuted before configs)) (Ours-all configs n))
            (all_before configs _ (next configs) refl (λ h e. fits_next configs h n e) refl));
  }
    where
      lt_ne : (a b : ℤ) → a <ℤ b → a ≡ b → ⊥
      lt_ne a b less e = omega (int_laws, less, ap pos_part e, ap neg_part e)
