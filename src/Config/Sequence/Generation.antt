-- ===== src/Config/Sequence/Generation.antt =====
-- Which generations still need a config.
use redkey_operator.Common.{
  String, false, Option, some, [], ◌∷◌, ◌≡◌, ◌∙◌, ap, ◌==◌, arith, String-cases, inl, inr,
}
use redkey_operator.Common.Int.{ℤ, ◌≤ℤ◌, IsInt64}
use redkey_operator.Common.GoMap.{nil, made, lookup}
use redkey_operator.Common.Decimal.{format_int, parse_int, parse_int-format_int}
use redkey_operator.Api.Types.{Types}
use redkey_operator.Api.Config.{RedkeyConfig}
use redkey_operator.Api.Redkey.{Redkey}
use redkey_operator.Kube.Laws.{OwnerLaw}
use redkey_operator.Kube.Action.{Env}
use redkey_operator.Robin.Merge.{deref_map}
use redkey_operator.Robin.Merge.Precedence.{lookup-merge_meta}
use redkey_operator.Config.Sequence.{generation_annotation, config_generation, needs_new_config}
use redkey_operator.Config.Create.{config_meta, next_sequence}
use redkey_operator.Config.Create.Writes.{IsSuccessor}

not-empty : (text : String) (g : ℤ) → parse_int text ≡ some g → (text == "") ≡ false
unfolding parse_int
not-empty text g h = elim (String-cases text "") [
  | inl (e, same) ↦ absurd (cc (ap parse_int same))
  | inr (e, differ) ↦ e
]

lookup-generation :
    {T : Types} (cluster : Redkey T) (seq : ℤ)
    → lookup generation_annotation (config_meta cluster seq).annotations
      ≡ some (format_int cluster.meta.generation)
unfolding config_meta
lookup-generation cluster seq =
    lookup-merge_meta (deref_map cluster.spec.annotations) nil
      (made ((generation_annotation, format_int cluster.meta.generation) ∷ []))
      generation_annotation

module _ {T : Types} where
  -- With a config for this generation or a later one no new config is needed.
  not_needed :
      (cluster : Redkey T) (latest : RedkeyConfig T) (g : ℤ)
      → config_generation latest ≡ some g
      → cluster.meta.generation ≤ℤ g
      → needs_new_config cluster (some latest) ≡ false
  unfolding needs_new_config
  not_needed cluster latest g e h = rw (e, needs_new_config) (ground arith)

  module _ (K : Env T) (law : OwnerLaw K.kube) where
    -- The config that is created for a cluster names the cluster's generation, whatever annotations
    -- the user asks for.
    config_generation-created :
        (cluster : Redkey T) (highest : Option (RedkeyConfig T)) (c : RedkeyConfig T)
        → IsInt64 cluster.meta.generation
        → IsSuccessor K cluster highest c
        → config_generation c ≡ some cluster.meta.generation
    unfolding config_generation
    config_generation-created cluster highest c fits made_for =
        rw (found, config_generation, not-empty _ _ (parse_int-format_int _ fits))
          (parse_int-format_int _ fits)
      where
        found :
            lookup generation_annotation c.meta.annotations
            ≡ some (format_int cluster.meta.generation)
        found =
            ap (lookup generation_annotation) (law.keeps _ _ _ made_for.owned).3
            ∙ lookup-generation cluster (next_sequence highest)

    -- Where SetControllerReference keeps the annotations: once a config was created for a cluster,
    -- no further one is needed while the cluster's generation is that one or an older one,
    -- whatever annotations the user asks for. The generation is an int64.
    pub needs_new_config-created :
        (cluster cluster' : Redkey T) (highest : Option (RedkeyConfig T)) (c : RedkeyConfig T)
        → IsInt64 cluster.meta.generation
        → IsSuccessor K cluster highest c
        → cluster'.meta.generation ≤ℤ cluster.meta.generation
        → needs_new_config cluster' (some c) ≡ false
    needs_new_config-created cluster cluster' highest c fits made_for not_newer =
        not_needed cluster' c cluster.meta.generation
          (config_generation-created cluster highest c fits made_for) not_newer
