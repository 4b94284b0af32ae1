-- ===== src/Kube/Store/Known.antt =====
-- What is known to be on the server, and the writes that add to it.
use redkey_operator.Common.{
  String, Bool, true, false, ◌&&◌, ◌||◌, List, [], ◌∷◌, ◌≡◌, ap, ◌∙◌, inl, inr, if◌then◌else◌,
  arith, Bool-cases,
}
use redkey_operator.Api.Types.{Types}
use redkey_operator.Api.Meta.{NamespacedName}
use redkey_operator.Kube.Client.{Kind, Object, Write, create, delete}
use redkey_operator.Kube.Store.{Store, same_kind, replay}
use redkey_operator.Kube.Action.{same_key}
use redkey_operator.Metrics.Trackers.Operations.{same_key_refl}

-- The writes take every store of which `P` holds to one of which `R` holds.
abbrev pub Leads :
    {T : Types} {A : Type 0} → (Store → Type 0) → (Store → Type 0) → A → List (Write T) → Type 0
Leads P R a ws = (store : Store) → P store → R (replay ws store)

-- The objects under a key of which it is known that they are there.
abbrev pub Known : NamespacedName → (Kind → Bool) → Store → Type 0
Known key b store = (kind : Kind) → b kind ≡ true → store kind key ≡ true

-- One more of them.
abbrev pub with_kind : Kind → (Kind → Bool) → Kind → Bool
with_kind k b j = same_kind j k || b j

pub same_kind_eq : (j k : Kind) → same_kind j k ≡ true → j ≡ k
same_kind_eq j k h = ground arith

module _ {T : Types} (key : NamespacedName) (b : Kind → Bool) (k : Kind) where
  -- An object is created under the key.
  pub brings_created :
      (o : Object T) (ns name : String)
      → ((store : Store) (j : Kind)
          → replay (create o ∷ []) store j key ≡ (
              if same_kind j k && same_key key (record { namespace = ns; name = name })
              then true
              else store j key))
      → ns ≡ key.namespace
      → name ≡ key.name
      → Leads (Known key b) (Known key (with_kind k b)) (tt {0}) (create o ∷ [])
  brings_created o ns name adds e e' store known j h =
      adds store j
      ∙ rw (e, e', same_key_refl key)
          (elim (Bool-cases (same_kind j k)) [
            | inl same ↦ ground (arith, same)
            | inr other ↦ ground (arith, other, h, known j)
          ])

  -- It is deleted and created again.
  pub brings_recreated :
      (o : Object T) (ns name : String)
      → ((store : Store) (j : Kind)
          → replay (delete k key ∷ create o ∷ []) store j key ≡ (
              if same_kind j k && same_key key (record { namespace = ns; name = name })
              then true
              else if same_kind j k && same_key key key
              then false
              else store j key))
      → ns ≡ key.namespace
      → name ≡ key.name
      → Leads (Known key b) (Known key (with_kind k b)) (tt {0}) (delete k key ∷ create o ∷ [])
  brings_recreated o ns name adds e e' store known j h =
      adds store j
      ∙ rw (e, e', same_key_refl key)
          (elim (Bool-cases (same_kind j k)) [
            | inl same ↦ ground (arith, same)
            | inr other ↦ ground (arith, other, h, known j)
          ])

  -- An object that is known to be there is left there.
  pub brings_nothing :
      (ws : List (Write T))
      → ((store : Store) (j : Kind) → replay ws store j key ≡ store j key)
      → b k ≡ true
      → Leads (Known key b) (Known key (with_kind k b)) (tt {0}) ws
  brings_nothing ws keeps there store known j h =
      keeps store j
      ∙ known j (elim (Bool-cases (same_kind j k)) [
        | inl same ↦ ap b (same_kind_eq j k same) ∙ there
        | inr other ↦ ground (arith, other, h)
      ])
