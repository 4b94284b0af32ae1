-- ===== src/Common/Sort/Edits.antt =====
-- Sorted lists that an element is added to at the end, or that elements are taken from.
use mathlib.Core.Path.{◌≡◌, refl, sym, ◌∙◌}
use mathlib.Core.Bool.{Bool, true, false}
use mathlib.Core.List.{List, [], ◌∷◌, ◌++◌}
use mathlib.Core.Logic.{inl, inr}
use native.Mathlib.Omega.{arith}
use redkey_operator.Common.Tests.{if◌then◌else◌, Bool-cases}
use redkey_operator.Common.Lists.{All}
use redkey_operator.Common.Sort.Unordered.{Pairwise}
use redkey_operator.Common.Sort.{insert_sorted, sort_slice, IsSorted, sort_slice-IsSorted}

-- The elements that a test does not hold of.
abbrev pub without {ℓ} : {A : Type ℓ} → (A → Bool) → List A → List A
without gone [] = []
without gone (x ∷ xs) = if gone x then without gone xs else x ∷ without gone xs

pub All-without {ℓ κ} :
    {A : Type ℓ} (gone : A → Bool) (P : A → Type κ) (xs : List A)
    → All P xs
    → All P (without gone xs)
All-without gone P [] h = tt
All-without gone P (x ∷ xs) h = elim (Bool-cases (gone x)) [
  | inl e ↦ rw e (All-without gone P xs h.1)
  | inr e ↦ rw e (h.0, All-without gone P xs h.1)
]

pub Pairwise-without {ℓ κ} :
    {A : Type ℓ} (gone : A → Bool) (R : A → A → Type κ) (xs : List A)
    → Pairwise R xs
    → Pairwise R (without gone xs)
Pairwise-without gone R [] h = tt
Pairwise-without gone R (x ∷ xs) h = elim (Bool-cases (gone x)) [
  | inl e ↦ rw e (Pairwise-without gone R xs h.1)
  | inr e ↦ rw e (All-without gone (R x) xs h.0, Pairwise-without gone R xs h.1)
]

-- Where the test holds of no element, all are left.
pub without_none {ℓ} :
    {A : Type ℓ} (gone : A → Bool) (xs : List A)
    → All (λ x. gone x ≡ false) xs
    → without gone xs ≡ xs
without_none gone [] h = refl
without_none gone (x ∷ xs) h = rw (h.0, without_none gone xs h.1) refl

-- Some of the elements, in the order that they stood in.
pub data Within {ℓ} {A : Type ℓ} : List A → List A → Type ℓ where
  nothing : Within [] []
  skip : {x : A} {xs ys : List A} → Within xs ys → Within xs (x ∷ ys)
  keep : {x : A} {xs ys : List A} → Within xs ys → Within (x ∷ xs) (x ∷ ys)

module _ {ℓ} {A : Type ℓ} where
  pub Within_refl : (xs : List A) → Within xs xs
  Within_refl [] = nothing
  Within_refl (x ∷ xs) = keep (Within_refl xs)

  -- Some of some of the elements.
  pub Within_trans : {ys zs : List A} → Within ys zs → {xs : List A} → Within xs ys → Within xs zs
  Within_trans nothing w = w
  Within_trans (skip v) w = skip (Within_trans v w)
  Within_trans (keep v) (skip w) = skip (Within_trans v w)
  Within_trans (keep v) (keep w) = keep (Within_trans v w)

  pub without-Within : (gone : A → Bool) (xs : List A) → Within (without gone xs) xs
  without-Within gone [] = nothing
  without-Within gone (x ∷ xs) = elim (Bool-cases (gone x)) [
    | inl e ↦ rw e (skip (without-Within gone xs))
    | inr e ↦ rw e (keep (without-Within gone xs))
  ]

  pub All-Within {κ} : (P : A → Type κ) {xs ys : List A} → Within xs ys → All P ys → All P xs
  All-Within P nothing h = tt
  All-Within P (skip w) h = All-Within P w h.1
  All-Within P (keep w) h = (h.0, All-Within P w h.1)

  pub Pairwise-Within {κ} :
      (R : A → A → Type κ) {xs ys : List A} → Within xs ys → Pairwise R ys → Pairwise R xs
  Pairwise-Within R nothing h = tt
  Pairwise-Within R (skip w) h = Pairwise-Within R w h.1
  Pairwise-Within R (keep {x} w) h = (All-Within (R x) w h.0, Pairwise-Within R w h.1)

module _ {ℓ} {A : Type ℓ} (less : A → A → Bool) where
  pub insert_sorted_last :
      (x : A) (xs : List A) → All (λ y. less y x ≡ true) xs → insert_sorted less x xs ≡ xs ++ x ∷ []
  unfolding insert_sorted
  insert_sorted_last x [] h = refl
  insert_sorted_last x (y ∷ ys) h = rw (h.0, insert_sorted_last x ys h.1) refl

  insert_first :
      (x : A) (xs : List A) → All (λ y. less y x ≡ false) xs → insert_sorted less x xs ≡ x ∷ xs
  unfolding insert_sorted
  insert_first x [] h = refl
  insert_first x (y ∷ ys) h = rw (h.0) refl

  module _ (gone : A → Bool) where
    without-insert_gone :
        (x : A) (xs : List A)
        → gone x ≡ true
        → without gone (insert_sorted less x xs) ≡ without gone xs
    unfolding insert_sorted
    without-insert_gone x [] h = rw h refl
    without-insert_gone x (y ∷ ys) h = ground (arith, h, without-insert_gone x ys h)

    module _ (asym : (x y : A) → less x y ≡ true → less y x ≡ false)
        (trans : (x y z : A) → less y x ≡ false → less z y ≡ false → less z x ≡ false) where
      later :
          (x y : A) (ys : List A)
          → less y x ≡ false
          → All (λ z. less z y ≡ false) ys
          → All (λ z. less z x ≡ false) ys
      later x y [] e h = tt
      later x y (z ∷ zs) e h = (trans x y z e h.0, later x y zs e h.1)

      without-insert_kept :
          (x : A) (xs : List A)
          → gone x ≡ false
          → IsSorted less xs
          → without gone (insert_sorted less x xs) ≡ insert_sorted less x (without gone xs)
      unfolding insert_sorted
      without-insert_kept x [] h sorted = rw h refl
      without-insert_kept x (y ∷ ys) h sorted = elim (Bool-cases (less y x)) [
        | inl e ↦ ground (arith, h, e, without-insert_kept x ys h sorted.1)
        | inr e ↦
            let first : insert_sorted less x (without gone ys) ≡ x ∷ without gone ys =
              insert_first x (without gone ys)
                (All-without gone (λ z. less z x ≡ false) ys (later x y ys e sorted.0)) in
            ground (arith, h, e, first)
      ]

      pub sort_slice-without :
          (xs : List A) → sort_slice less (without gone xs) ≡ without gone (sort_slice less xs)
      unfolding sort_slice
      sort_slice-without [] = refl
      sort_slice-without (x ∷ xs) = elim (Bool-cases (gone x)) [
        | inl e ↦ rw e (sort_slice-without xs ∙ sym (without-insert_gone x (sort_slice less xs) e))
        | inr e ↦
            rw (e, sort_slice-without xs)
              (sym (
                without-insert_kept x (sort_slice less xs) e
                  (sort_slice-IsSorted less asym trans xs)))
      ]
