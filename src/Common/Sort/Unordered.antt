-- ===== src/Common/Sort/Unordered.antt =====
-- Sorting elements that all differ in the order: the result does not depend on where they stood.
use mathlib.Core.Path.{◌≡◌, refl, sym, subst, ◌∙◌}
use mathlib.Core.Bool.{Bool, true, false, ◌||◌}
use mathlib.Core.List.{List, [], ◌∷◌, Permᴰ}
use mathlib.Core.List.Permᴰ
use mathlib.Core.Logic.{inl, inr}
use native.Mathlib.Omega.{arith}
use redkey_operator.Common.Tests.{Bool-cases}
use redkey_operator.Common.Lists.{All}
use redkey_operator.Common.Sort.{insert_sorted, sort_slice}

-- Any two elements are related.
abbrev pub Pairwise {ℓ κ} : {A : Type ℓ} → (A → A → Type κ) → List A → Type κ
Pairwise R [] = Unit
Pairwise R (x ∷ xs) = All (R x) xs × Pairwise R xs

module _ {ℓ κ} {A : Type ℓ} where
  pub All-perm : (P : A → Type κ) (xs ys : List A) → Permᴰ xs ys → All P xs → All P ys
  All-perm P _ _ Permᴰ.nil h = tt
  All-perm P _ _ (Permᴰ.cons {a} {b} {l₁ = xs} {l₂ = ys} e p) h =
      (subst P e h.0, All-perm P xs ys p h.1)
  All-perm P _ _ (Permᴰ.swap {a} {b} {a'} {b'} {l} e e') h =
      (subst P e' h.1.0, (subst P e h.0, h.1.1))
  All-perm P _ _ (Permᴰ.trans {l₁ = xs} {l₂ = ys} {l₃ = zs} p q) h =
      All-perm P ys zs q (All-perm P xs ys p h)

  pub Pairwise-perm :
      (R : A → A → Type κ)
      → ((x y : A) → R x y → R y x)
      → (xs ys : List A) → Permᴰ xs ys
      → Pairwise R xs
      → Pairwise R ys
  Pairwise-perm R flip _ _ Permᴰ.nil h = tt
  Pairwise-perm R flip _ _ (Permᴰ.cons {a} {b} {l₁ = xs} {l₂ = ys} e p) h =
      (subst (λ x. All (R x) ys) e (All-perm (R a) xs ys p h.0), Pairwise-perm R flip xs ys p h.1)
  Pairwise-perm R flip _ _ (Permᴰ.swap {a} {b} {a'} {b'} {l} e e') h =
      subst (λ x. Pairwise R (x ∷ b' ∷ l)) e'
        (subst (λ x. Pairwise R (b ∷ x ∷ l)) e ((flip a b h.0.0, h.1.0), (h.0.1, h.1.1)))
  Pairwise-perm R flip _ _ (Permᴰ.trans {l₁ = xs} {l₂ = ys} {l₃ = zs} p q) h =
      Pairwise-perm R flip ys zs q (Pairwise-perm R flip xs ys p h)

module _ {ℓ} {A : Type ℓ} (less : A → A → Bool) where
  insert_sorted-permuted : (x : A) (xs : List A) → Permᴰ (insert_sorted less x xs) (x ∷ xs)
  unfolding insert_sorted
  insert_sorted-permuted x [] = Permᴰ.refl (x ∷ [])
  insert_sorted-permuted x (y ∷ ys) = elim (Bool-cases (less y x)) [
    | inl e ↦
        rw e (Permᴰ.trans (Permᴰ.cons refl (insert_sorted-permuted x ys)) (Permᴰ.swap refl refl))
    | inr e ↦ rw e (Permᴰ.refl (x ∷ y ∷ ys))
  ]

  pub sort_slice-permuted : (xs : List A) → Permᴰ (sort_slice less xs) xs
  unfolding sort_slice
  sort_slice-permuted [] = Permᴰ.nil
  sort_slice-permuted (x ∷ xs) =
      Permᴰ.trans (insert_sorted-permuted x (sort_slice less xs))
        (Permᴰ.cons refl (sort_slice-permuted xs))

  -- One of the two comes before the other.
  abbrev pub Apart : A → A → Type 0
  Apart x y = (less x y || less y x) ≡ true

  module _ (asym : (x y : A) → less x y ≡ true → less y x ≡ false)
      (trans : (x y z : A) → less x y ≡ true → less z x ≡ true → less z y ≡ true) where
    insert_twice :
        (x y : A) (xs : List A)
        → less x y ≡ true
        → insert_sorted less x (insert_sorted less y xs)
          ≡ insert_sorted less y (insert_sorted less x xs)
    unfolding insert_sorted
    insert_twice x y [] h = ground (arith, h, asym x y h)
    insert_twice x y (z ∷ zs) h =
        ground (arith, h, asym x y h, trans x y z h, insert_twice x y zs h)

    insert_comm :
        (x y : A) (xs : List A)
        → Apart x y
        → insert_sorted less x (insert_sorted less y xs)
          ≡ insert_sorted less y (insert_sorted less x xs)
    insert_comm x y xs h = elim (Bool-cases (less x y)) [
      | inl e ↦ insert_twice x y xs e
      | inr e ↦ sym (insert_twice y x xs (ground (arith, h, e)))
    ]

    Apart-flip : (x y : A) → Apart x y → Apart y x
    Apart-flip x y h = ground (arith, h)

    pub sort_slice-unordered :
        (xs ys : List A) → Permᴰ xs ys → Pairwise Apart xs → sort_slice less xs ≡ sort_slice less ys
    unfolding sort_slice
    sort_slice-unordered _ _ Permᴰ.nil h = refl
    sort_slice-unordered _ _ (Permᴰ.cons {a} {b} {l₁ = xs} {l₂ = ys} e p) h =
        rw (e, sort_slice-unordered xs ys p h.1) refl
    sort_slice-unordered _ _ (Permᴰ.swap {a} {b} {a'} {b'} {l} e e') h =
        rw (← e, ← e') (insert_comm a b (sort_slice less l) h.0.0)
    sort_slice-unordered _ _ (Permᴰ.trans {l₁ = xs} {l₂ = ys} {l₃ = zs} p q) h =
        sort_slice-unordered xs ys p h
        ∙ sort_slice-unordered ys zs q (Pairwise-perm Apart Apart-flip xs ys p h)
