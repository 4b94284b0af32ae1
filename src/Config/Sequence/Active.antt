-- ===== src/Config/Sequence/Active.antt =====
-- Which config the status is taken from.
use redkey_operator.Common.{
  false, none, some, List, [], ◌∷◌, ◌++◌, ◌≡◌, refl, ap, ◌⊎◌, inl, inr, All, ◌==◌, String-cases,
}
use redkey_operator.Api.Types.{Types}
use redkey_operator.Api.Config.{RedkeyConfig}
use redkey_operator.Config.Sequence.{first_in_progress, select_active_config}

module _ {T : Types} where
  abbrev pub Idle : RedkeyConfig T → Type 0
  Idle c = (c.status.config_phase == "InProgress") ≡ false

  -- The first config of a list that is in progress, with those before and after it.
  abbrev pub FirstBusy : List (RedkeyConfig T) → RedkeyConfig T → Type 0
  FirstBusy configs c =
      (older : List (RedkeyConfig T)) × (newer : List (RedkeyConfig T)) × (configs
        ≡ older ++ c ∷ newer)
      × All Idle older
      × (c.status.config_phase ≡ "InProgress")

  first_in_progress-cases :
      (configs : List (RedkeyConfig T))
      → ((c : RedkeyConfig T) × (first_in_progress configs ≡ some c) × FirstBusy configs c)
        ⊎ ((first_in_progress configs ≡ none) × All Idle configs)
  unfolding first_in_progress
  first_in_progress-cases [] = inr (refl, tt)
  first_in_progress-cases (d ∷ configs) = elim (String-cases d.status.config_phase "InProgress") [
    | inl (e, same) ↦ inl (d, rw (e) refl, ([], configs, refl, tt, same))
    | inr (e, differ) ↦ elim (first_in_progress-cases configs) [
      | inl (c, found, (older, newer, split, idle, busy)) ↦
          inl (c, rw (e) found, (d ∷ older, newer, ap (λ x. d ∷ x) split, (e, idle), busy))
      | inr (missing, idle) ↦ inr (rw (e) missing, (e, idle))
    ]
  ]

  -- Of any listing that is not empty, the active config is the first one in progress, and where no
  -- config is in progress the first one of the list.
  pub select_active_config-cases :
      (d : RedkeyConfig T) (configs : List (RedkeyConfig T))
      → ((c : RedkeyConfig T) × (select_active_config (d ∷ configs) ≡ some c)
          × FirstBusy (d ∷ configs) c)
        ⊎ ((select_active_config (d ∷ configs) ≡ some d) × All Idle (d ∷ configs))
  unfolding select_active_config
  select_active_config-cases d [] = elim (String-cases d.status.config_phase "InProgress") [
    | inl (e, same) ↦ inl (d, refl, ([], [], refl, tt, same))
    | inr (e, differ) ↦ inr (refl, (e, tt))
  ]
  select_active_config-cases d (next ∷ configs) =
      elim (first_in_progress-cases (d ∷ next ∷ configs)) [
        | inl (c, found, busy) ↦ inl (c, rw (found, select_active_config) refl, busy)
        | inr (missing, idle) ↦ inr (rw (missing, select_active_config) refl, idle)
      ]
