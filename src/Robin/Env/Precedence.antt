-- ===== src/Robin/Env/Precedence.antt =====
-- Which of several variables of one name the merged environment ends with: the last one of a name
-- is the one that a container gets.
use redkey_operator.Common.{
  ℕ, zero, suc, ◌+◌, String, false, ◌==◌, Option, none, some, List, [], ◌∷◌, ◌++◌, ◌≡◌, refl, ap,
  subst, ◌∙◌, eq_iff, arith, if◌then◌else◌, length, set, Option-cases, String-cases, inl, inr,
}
use redkey_operator.Common.GoMap.{find, insert, find-insert}
use redkey_operator.Api.Types.{Types}
use redkey_operator.Api.Meta.{EnvVar}
use redkey_operator.Robin.Env.{index_by_name, merge_loop, merge_env_vars}

module _ {T : Types} where
  -- The last variable of a name, and where it stands.
  abbrev pub last_named : String → List (EnvVar T) → Option (EnvVar T)
  last_named k [] = none
  last_named k (v ∷ vs) =
      let rest = last_named k vs in
      elim rest [ some found ↦ some found | none ↦ if k == v.name then some v else none ]

  abbrev pub last_index : String → List (EnvVar T) → Option ℕ
  last_index k [] = none
  last_index k (v ∷ vs) =
      let rest = last_index k vs in
      elim rest [ some i ↦ some (suc i) | none ↦ if k == v.name then some 0 else none ]

  -- What `indexByName` is to hold.
  abbrev Indexed : List (String × ℕ) → List (EnvVar T) → Type 0
  Indexed by_name merged = (k : String) → find k by_name ≡ last_index k merged

  index_by_name-find :
      (n : ℕ) (vs : List (EnvVar T)) (by_name : List (String × ℕ)) (k : String)
      → find k (index_by_name n vs by_name)
        ≡ (elim (last_index k vs) [ some i ↦ some (n + i) | none ↦ find k by_name ])
  unfolding index_by_name
  index_by_name-find n [] by_name k = refl
  index_by_name-find n (v ∷ vs) by_name k =
      index_by_name-find (suc n) vs (insert v.name n by_name) k
      ∙ ground (arith, find-insert v.name k n by_name)

  last_index-append :
      (vs : List (EnvVar T)) (v : EnvVar T) (k : String)
      → last_index k (vs ++ v ∷ []) ≡ (if k == v.name then some (length vs) else last_index k vs)
  last_index-append [] v k = ground arith
  last_index-append (w ∷ vs) v k = ground (arith, last_index-append vs v k)

  last_named-append :
      (vs : List (EnvVar T)) (v : EnvVar T) (k : String)
      → last_named k (vs ++ v ∷ []) ≡ (if k == v.name then some v else last_named k vs)
  last_named-append [] v k = ground arith
  last_named-append (w ∷ vs) v k = ground (arith, last_named-append vs v k)

  last_index-none :
      (vs : List (EnvVar T)) (k : String) → last_index k vs ≡ none → last_named k vs ≡ none
  last_index-none [] k h = refl
  last_index-none (v ∷ vs) k h = ground (arith, last_index-none vs k)

  last_index-set :
      (vs : List (EnvVar T)) (v : EnvVar T) (i : ℕ) (k : String)
      → last_index v.name vs ≡ some i
      → last_index k (set vs i v) ≡ last_index k vs
  last_index-set [] v i k h = absurd (cc)
  last_index-set (w ∷ vs) v zero k h = ground (arith, eq_iff v.name w.name, h)
  last_index-set (w ∷ vs) v (suc i) k h = ground (arith, last_index-set vs v i k, h)

  same_name :
      (k : String) (v w : EnvVar T)
      → v.name ≡ w.name
      → (k == v.name) ≡ false
      → (k == w.name) ≡ false
  same_name k v w e h = subst (λ x. (k == x) ≡ false) e h

  last_named-set :
      (vs : List (EnvVar T)) (v : EnvVar T) (i : ℕ) (k : String)
      → last_index v.name vs ≡ some i
      → last_named k (set vs i v) ≡ (if k == v.name then some v else last_named k vs)
  last_named-set [] v i k h = absurd (cc)
  last_named-set (w ∷ vs) v zero k h = elim (String-cases k v.name) [
    | inl (e, same) ↦ ground (
      arith,
      e,
      ap (λ x. last_named x vs) same,
      eq_iff v.name w.name,
      last_index-none vs v.name,
      h,
    )
    | inr (e, differ) ↦ ground (arith, e, eq_iff v.name w.name, eq_iff k w.name, same_name k v w, h)
  ]
  last_named-set (w ∷ vs) v (suc i) k h = ground (arith, last_named-set vs v i k, h)

  last_named-merge_loop :
      (overrides merged : List (EnvVar T)) (by_name : List (String × ℕ))
      → Indexed by_name merged
      → (k : String)
      → last_named k (merge_loop overrides merged by_name)
        ≡ (elim (last_named k overrides) [ some v ↦ some v | none ↦ last_named k merged ])
  unfolding merge_loop
  last_named-merge_loop [] merged by_name h k = refl
  last_named-merge_loop (v ∷ overrides) merged by_name h k =
      elim (Option-cases (find v.name by_name)) [
        | inl absent ↦
            rw (absent, merge_loop)
              (last_named-merge_loop overrides _ _
                  (λ j. ground (
                    arith,
                    h j,
                    find-insert v.name j (length merged) by_name,
                    last_index-append merged v j,
                  ))
                  k
                ∙ ground (arith, last_named-append merged v k))
        | inr (i, there) ↦
            rw (there, merge_loop)
              (last_named-merge_loop overrides _ _
                  (λ j. ground (arith, h j, h v.name, last_index-set merged v i j)) k
                ∙ ground (arith, h v.name, last_named-set merged v i k))
      ]

  -- Of every name, the merged list gives a container the last of the overrides, and the last of the
  -- base variables where no override has the name.
  pub last_named-merge_env_vars :
      (base overrides : List (EnvVar T)) (k : String)
      → last_named k (merge_env_vars base overrides)
        ≡ (elim (last_named k overrides) [ some v ↦ some v | none ↦ last_named k base ])
  unfolding merge_env_vars
  last_named-merge_env_vars base overrides k =
      last_named-merge_loop overrides base _ (λ j. index_by_name-find 0 base [] j ∙ ground arith) k
