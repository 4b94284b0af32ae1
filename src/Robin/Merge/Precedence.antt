-- ===== src/Robin/Merge/Precedence.antt =====
-- Which source an entry of a merged map comes from.
use redkey_operator.Common.{
  String, true, Option, none, some, List, [], ◌∷◌, ◌≡◌, refl, ◌↔◌, ◌∙◌, sym, ap, eq_refl,
  if◌then◌else◌, arith,
}
use redkey_operator.Common.GoMap.{
  GoMap, nil, made, entries, find, lookup, copy, is_empty, find-copy, lookup-made_unless_empty,
}
use redkey_operator.Robin.Merge.{merge_meta}

-- What a lookup in a merged map is to find: the base entry; else the override's if the override
-- has any entry at all; else the spec's.
abbrev pub preferred : GoMap String → GoMap String → GoMap String → String → Option String
preferred spec override base k = elim (lookup k base) [
  | some v ↦ some v
  | none ↦ if is_empty (entries override) then lookup k spec else lookup k override
]

-- In a merged map a lookup finds the base entry if there is one. Otherwise it finds the override's
-- entry if the override has any entry at all, and the spec's if the override has none.
pub lookup-merge_meta :
    (spec override base : GoMap String) (k : String)
    → lookup k (merge_meta spec override base) ≡ preferred spec override base k
unfolding merge_meta
lookup-merge_meta spec override base k =
    lookup-made_unless_empty _ k
    ∙ ground (
      arith,
      find-copy k (copy [] (entries spec)) (entries base),
      find-copy k (copy [] (entries override)) (entries base),
      find-copy k [] (entries spec),
      find-copy k [] (entries override),
    )

empty_of_find :
    (es : List (String × String)) → ((k : String) → find k es ≡ none) → is_empty es ≡ true
empty_of_find [] h = refl
empty_of_find ((k, v) ∷ es) h = ground (arith, h k, eq_refl k)

nil_of_lookup :
    (es : List (String × String))
    → ((k : String) → lookup k (if is_empty es then nil else made es) ≡ none)
    → (if is_empty es then nil else made es) ≡ nil
nil_of_lookup es h = rw (empty_of_find es (λ k. sym (lookup-made_unless_empty es k) ∙ h k))

-- The merged map is nil exactly when no key has an entry in it.
pub merge_meta-eq-nil :
    (spec override base : GoMap String)
    → (merge_meta spec override base ≡ nil) ↔ ((k : String) → preferred spec override base k ≡ none)
unfolding merge_meta
merge_meta-eq-nil spec override base = (
  λ e k. sym (lookup-merge_meta spec override base k) ∙ ap (lookup k) e,
  λ h. nil_of_lookup _ (λ k. lookup-merge_meta spec override base k ∙ h k),
)
