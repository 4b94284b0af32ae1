-- ===== src/Common/Sort.antt =====
-- Go's sort.Slice, as the insertion sort that it is on short slices.
pub mod Unordered
pub mod Edits
use mathlib.Core.Path.{◌≡◌}
use mathlib.Core.Bool.{Bool, true, false}
use mathlib.Core.Option.{some, some-injective}
use mathlib.Core.List.{List, [], ◌∷◌, Perm}
use mathlib.Core.List.Perm
use mathlib.Core.Logic.{inl, inr}
use redkey_operator.Common.Tests.{if◌then◌else◌, Bool-cases}
use redkey_operator.Common.Lists.{All, last?}

pub All-last {ℓ κ} :
    {A : Type ℓ} (P : A → Type κ) (xs : List A) (l : A) → All P xs → last? xs ≡ some l → P l
All-last P [] l h e = cc
All-last P (x ∷ []) l h e = rw (← some-injective x l e) h.0
All-last P (x ∷ y ∷ ys) l h e = All-last P (y ∷ ys) l h.1 e

module _ {ℓ} {A : Type ℓ} (less : A → A → Bool) where
  unfoldable pub insert_sorted : A → List A → List A
  insert_sorted x [] = x ∷ []
  insert_sorted x (y ∷ ys) = if less y x then y ∷ insert_sorted x ys else x ∷ y ∷ ys

  unfoldable pub sort_slice : List A → List A
  unfolding insert_sorted
  sort_slice [] = []
  sort_slice (x ∷ xs) = insert_sorted x (sort_slice xs)

  -- No later element is less than an earlier one.
  abbrev pub IsSorted : List A → Type 0
  IsSorted [] = Unit
  IsSorted (x ∷ xs) = All (λ y. less y x ≡ false) xs × IsSorted xs

  insert_sorted-perm : (x : A) (xs : List A) → Perm (insert_sorted x xs) (x ∷ xs)
  unfolding insert_sorted
  insert_sorted-perm x [] = Perm.refl (x ∷ [])
  insert_sorted-perm x (y ∷ ys) = elim (Bool-cases (less y x)) [
    | inl e ↦ rw e (Perm.trans (Perm.cons y (insert_sorted-perm x ys)) (Perm.swap x y ys))
    | inr e ↦ rw e (Perm.refl (x ∷ y ∷ ys))
  ]

  pub sort_slice-perm : (xs : List A) → Perm (sort_slice xs) xs
  unfolding sort_slice
  sort_slice-perm [] = Perm.refl []
  sort_slice-perm (x ∷ xs) =
      Perm.trans (insert_sorted-perm x (sort_slice xs)) (Perm.cons x (sort_slice-perm xs))

  All-perm-insert_sorted :
      (P : A → Type 0) (x : A) (xs : List A) → P x → All P xs → All P (insert_sorted x xs)
  unfolding insert_sorted
  All-perm-insert_sorted P x [] hx h = (hx, tt)
  All-perm-insert_sorted P x (y ∷ ys) hx h = elim (Bool-cases (less y x)) [
    | inl e ↦ rw e (h.0, All-perm-insert_sorted P x ys hx h.1)
    | inr e ↦ rw e (hx, h)
  ]

  module _ (asym : (x y : A) → less x y ≡ true → less y x ≡ false)
      (trans : (x y z : A) → less y x ≡ false → less z y ≡ false → less z x ≡ false) where
    All-trans :
        (x y : A) (zs : List A)
        → less y x ≡ false
        → All (λ z. less z y ≡ false) zs
        → All (λ z. less z x ≡ false) zs
    All-trans x y [] e h = tt
    All-trans x y (z ∷ zs) e h = (trans x y z e h.0, All-trans x y zs e h.1)

    insert_sorted-IsSorted : (x : A) (xs : List A) → IsSorted xs → IsSorted (insert_sorted x xs)
    unfolding insert_sorted
    insert_sorted-IsSorted x [] h = (tt, tt)
    insert_sorted-IsSorted x (y ∷ ys) h = elim (Bool-cases (less y x)) [
      | inl e ↦ rw e (
        All-perm-insert_sorted (λ z. less z y ≡ false) x ys (asym y x e) h.0,
        insert_sorted-IsSorted x ys h.1,
      )
      | inr e ↦ rw e ((e, All-trans x y ys e h.0), h)
    ]

    pub sort_slice-IsSorted : (xs : List A) → IsSorted (sort_slice xs)
    unfolding sort_slice
    sort_slice-IsSorted [] = tt
    sort_slice-IsSorted (x ∷ xs) = insert_sorted-IsSorted x (sort_slice xs) (sort_slice-IsSorted xs)

  -- Nothing in a sorted list comes after its last element.
  pub last?-greatest :
      (irrefl : (x : A) → less x x ≡ false) (xs : List A) (l : A)
      → IsSorted xs
      → last? xs ≡ some l
      → All (λ x. less l x ≡ false) xs
  last?-greatest irrefl [] l h e = tt
  last?-greatest irrefl (x ∷ []) l h e = (rw (some-injective x l e) (irrefl l), tt)
  last?-greatest irrefl (x ∷ y ∷ ys) l h e =
      (All-last (λ z. less z x ≡ false) (y ∷ ys) l h.0 e, last?-greatest irrefl (y ∷ ys) l h.1 e)
