-- ===== src/Config/Cleanup/Suffix.antt =====
-- What cleanupSupersededConfigs keeps and what it deletes.
use redkey_operator.Common.{
  ℕ, zero, suc, ◌<◌, true, false, none, some, List, [], ◌∷◌, ◌++◌, ◌≡◌, refl, All, arith,
  Bool-cases, Option-cases, inl, inr, ◌⊎◌, subst, All-get, get_elem?-append, take-append,
  drop-append, length, leb, get_elem?, length-append,
}
use redkey_operator.Api.Types.{Types}
use redkey_operator.Api.Config.{RedkeyConfig}
use redkey_operator.Kube.Action.{Env, pure, ◌>>◌}
use redkey_operator.Config.Sequence.{is_applied}
use redkey_operator.Config.Cleanup.{
  last_applied, delete_all, delete_older, cleanup_superseded_configs,
}

lt_or_eq : (m n : ℕ) → m < suc n → (m ≡ n) ⊎ (m < n)
lt_or_eq m n h = omega (arith, h)

module _ {T : Types} where
  abbrev pub NotApplied : RedkeyConfig T → Type 0
  NotApplied c = is_applied c ≡ false

  last_applied-low :
      (n : ℕ) (c : RedkeyConfig T) (rest : List (RedkeyConfig T))
      → All NotApplied rest
      → (last_applied n (c ∷ rest) ≡ none) ⊎ (last_applied n (c ∷ rest) ≡ some 0)
  unfolding last_applied
  last_applied-low zero c rest h = inl refl
  last_applied-low (suc zero) c rest h = elim (Bool-cases (is_applied c)) [
    | inl e ↦ inr (ground arith)
    | inr e ↦ inl (ground arith)
  ]
  last_applied-low (suc (suc n)) c rest h = elim (Option-cases (get_elem? rest n)) [
    | inl e ↦ ground (arith, last_applied-low (suc n) c rest h)
    | inr (d, e) ↦
        ground (arith, last_applied-low (suc n) c rest h, All-get NotApplied rest n d h e)
  ]

  behind-NotApplied :
      (older rest : List (RedkeyConfig T)) (c d : RedkeyConfig T) (i : ℕ)
      → All NotApplied rest
      → length older < i
      → get_elem? (older ++ c ∷ rest) i ≡ some d
      → NotApplied d
  behind-NotApplied older rest c d zero h lt e = absurd (omega (arith, lt))
  behind-NotApplied [] rest c d (suc i) h lt e = All-get NotApplied rest i d h e
  behind-NotApplied (o ∷ older) rest c d (suc i) h lt e =
      behind-NotApplied older rest c d i h (omega (arith, lt)) e

  -- The scan from above passes what is not applied.
  last_applied-skip :
      (n : ℕ) (older rest : List (RedkeyConfig T)) (c : RedkeyConfig T)
      → is_applied c ≡ true
      → All NotApplied rest
      → length older < n
      → last_applied n (older ++ c ∷ rest) ≡ some (length older)
  unfolding last_applied
  last_applied-skip zero older rest c e h lt = absurd (omega (arith, lt))
  last_applied-skip (suc n) older rest c e h lt = elim (lt_or_eq (length older) n lt) [
    | inl here ↦ subst Stops here (ground (arith, get_elem?-append older rest c))
    | inr above ↦ elim (Option-cases (get_elem? (older ++ c ∷ rest) n)) [
      | inl e' ↦ ground (arith, last_applied-skip n older rest c e h above)
      | inr (d, found) ↦ ground (
        arith,
        last_applied-skip n older rest c e h above,
        behind-NotApplied older rest c d n h above found,
      )
    ]
  ]
    where
      Stops : ℕ → Type 0
      Stops m = last_applied (suc m) (older ++ c ∷ rest) ≡ some (length older)

  last_applied-append :
      (older rest : List (RedkeyConfig T)) (c : RedkeyConfig T)
      → is_applied c ≡ true
      → All NotApplied rest
      → last_applied (length (older ++ c ∷ rest)) (older ++ c ∷ rest) ≡ some (length older)
  last_applied-append older rest c e h =
      last_applied-skip _ older rest c e h (omega (arith, length-append older (c ∷ rest)))

  module _ (K : Env T) where
    -- With configs older than the newest applied one, the cleanup is to delete exactly these, the
    -- oldest first, and to return the newest applied one and all that are newer.
    pub cleanup_superseded_configs-newest_applied :
        (o : RedkeyConfig T) (older rest : List (RedkeyConfig T)) (c : RedkeyConfig T)
        → is_applied c ≡ true
        → All NotApplied rest
        → cleanup_superseded_configs K (o ∷ older ++ c ∷ rest)
          ≡ (delete_all K (o ∷ older) >> pure (c ∷ rest))
    unfolding cleanup_superseded_configs delete_older
    cleanup_superseded_configs-newest_applied o older rest c e h =
        rw (several, last_applied-append (o ∷ older) rest c e h, delete_older)
          (rw (take-append older (c ∷ rest), drop-append older (c ∷ rest)))
      where
        several : leb (length (o ∷ older ++ c ∷ rest)) 1 ≡ false
        several = ground (arith, length-append older (c ∷ rest))

    -- Where no config but possibly the oldest is applied, the cleanup deletes nothing and returns
    -- all.
    pub cleanup_superseded_configs-unapplied :
        (c : RedkeyConfig T) (rest : List (RedkeyConfig T))
        → All NotApplied rest
        → cleanup_superseded_configs K (c ∷ rest) ≡ pure (c ∷ rest)
    unfolding cleanup_superseded_configs delete_older
    cleanup_superseded_configs-unapplied c rest h =
        elim (last_applied-low (length (c ∷ rest)) c rest h) [
          | inl e ↦ rw (e, delete_older) (ground arith)
          | inr e ↦ rw (e, delete_older) (ground arith)
        ]
