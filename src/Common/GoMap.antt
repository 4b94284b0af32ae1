-- ===== src/Common/GoMap.antt =====
-- Go's `map[string]V`: nil, or the entries of a map that was made. A key is listed once in what the
-- program builds; where one is listed twice the first entry counts. The order of the entries is
-- never read: two maps are the same when they answer every lookup alike.
use Prim.Native.String.{String}
use mathlib.Core.Path.{◌≡◌, refl}
use mathlib.Core.Bool.{Bool, true, false}
use mathlib.Core.Option.{Option, none, some}
use mathlib.Core.List.{List, [], ◌∷◌}
use native.Mathlib.Omega.{arith}
use text.Mathlib.TextEquality.{eq_iff}
use redkey_operator.Common.Tests.{◌==◌, if◌then◌else◌}

pub data GoMap {ℓ} (V : Type ℓ) : Type ℓ where
  nil : GoMap V
  made : List (String × V) → GoMap V

module _ {ℓ} {V : Type ℓ} where
  abbrev pub entries : GoMap V → List (String × V)
  entries nil = []
  entries (made es) = es

  abbrev pub find : String → List (String × V) → Option V
  find k [] = none
  find k ((j, v) ∷ es) = if k == j then some v else find k es

  -- `v, ok := m[k]`
  abbrev pub lookup : String → GoMap V → Option V
  lookup k m = find k (entries m)

  -- `m[k] = v` on the entries of a map that was made.
  unfoldable pub insert : String → V → List (String × V) → List (String × V)
  insert k v [] = (k, v) ∷ []
  insert k v ((j, w) ∷ es) = if k == j then (k, v) ∷ es else (j, w) ∷ insert k v es

  -- `maps.Copy(dst, src)`: every entry of `src` is written to `dst`.
  unfoldable pub copy : List (String × V) → List (String × V) → List (String × V)
  copy dst [] = dst
  copy dst ((k, v) ∷ src) = insert k v (copy dst src)

  -- `delete(m, k)`, or a copy of the entries under the other keys.
  unfoldable pub erase : String → List (String × V) → List (String × V)
  erase k [] = []
  erase k ((j, w) ∷ es) = let rest = erase k es in if k == j then rest else (j, w) ∷ rest

  -- `len(m) == 0`
  abbrev pub is_empty : List (String × V) → Bool
  is_empty [] = true
  is_empty (_ ∷ _) = false

  -- Two maps that answer every lookup alike.
  abbrev pub Same : GoMap V → GoMap V → Type ℓ
  Same m n = (k : String) → lookup k m ≡ lookup k n

  pub find-insert :
      (k j : String) (v : V) (es : List (String × V))
      → find j (insert k v es) ≡ (if j == k then some v else find j es)
  unfolding insert
  find-insert k j v [] = refl
  find-insert k j v ((i, w) ∷ es) =
      ground (arith, eq_iff j k, eq_iff k i, eq_iff j i, find-insert k j v es)

  -- A copied key wins over what stood there.
  pub find-copy :
      (j : String) (dst src : List (String × V))
      → find j (copy dst src) ≡ (elim (find j src) [ some v ↦ some v | none ↦ find j dst ])
  unfolding copy
  find-copy j dst [] = refl
  find-copy j dst ((k, v) ∷ src) =
      ground (arith, find-insert k j v (copy dst src), find-copy j dst src)

  pub find-erase :
      (k j : String) (es : List (String × V))
      → find j (erase k es) ≡ (if j == k then none else find j es)
  unfolding erase
  find-erase k j [] = ground arith
  find-erase k j ((i, w) ∷ es) =
      ground (arith, eq_iff j k, eq_iff k i, eq_iff j i, find-erase k j es)

  pub insert-ne-nil :
      (k : String) (v : V) (es : List (String × V)) → is_empty (insert k v es) ≡ false
  unfolding insert
  insert-ne-nil k v [] = refl
  insert-ne-nil k v ((i, w) ∷ es) = ground arith

  pub find_empty : (j : String) (es : List (String × V)) → is_empty es ≡ true → find j es ≡ none
  find_empty j [] h = refl
  find_empty j (_ ∷ _) h = cc

  pub lookup-made_unless_empty :
      (es : List (String × V)) (k : String)
      → lookup k (if is_empty es then nil else made es) ≡ find k es
  lookup-made_unless_empty [] k = refl
  lookup-made_unless_empty (e ∷ es) k = refl
