-- ===== src/Status/Conditions/Phase.antt =====
-- Which conditions and which phase a status takes from a config.
use redkey_operator.Common.{
  String, Bool, true, false, not, ◌&&◌, ◌||◌, ◌==◌, none, some, List, [], ◌∷◌, ◌≡◌, refl, ap, ◌∙◌,
  arith, if◌then◌else◌, Option-cases, Bool-cases, String-cases, inl, inr,
}
use redkey_operator.Api.Types.{Types, Time}
use redkey_operator.Api.Meta.{Condition, condition, condition_true}
use redkey_operator.Api.Config.{RedkeyConfig}
use redkey_operator.Kube.Client.{Kube}
use redkey_operator.Kube.Laws.{Reading, reading, ConditionLaws}
use redkey_operator.Status.Conditions.{
  is_terminal_config_phase, condition_status, health_condition_types, is_config_ready,
  has_config_error, is_settled, health_condition, set_health_conditions,
  aggregate_health_conditions, aggregate_conditions, is_condition_true,
  compute_phase_from_conditions,
}

abbrev contains : String → List String → Bool
contains kind [] = false
contains kind (k ∷ kinds) = kind == k || contains kind kinds

-- The phase that a config with the given phase and status stands for: a config that Robin is done
-- with failed or is ready, and any other one is worked on.
abbrev pub expected_phase : String → String → String
expected_phase config_phase status =
    if config_phase == "Applied"
    then (if status == "Error" then "Error" else "Ready")
    else if config_phase == "Superseded"
    then (if status == "Error" then "Error" else "Ready")
    else "Configuring"

-- A flag holds where the phase is the wanted one.
abbrev pub flag_status : String → String → String
flag_status wanted phase = if phase == wanted then "True" else "False"

-- The phase where the config is applied, where it is superseded and where its status is an error.
abbrev chosen_phase : Bool → Bool → Bool → String
chosen_phase applied superseded failed =
    if applied
    then (if failed then "Error" else "Ready")
    else if superseded
    then (if failed then "Error" else "Ready")
    else "Configuring"

flag_status-chosen_phase :
    (applied superseded failed : Bool)
    → (let phase = chosen_phase applied superseded failed in
        let ended = applied || superseded in
        (condition_status (ended && not failed) ≡ flag_status "Ready" phase)
        × (condition_status (not ended) ≡ flag_status "Configuring" phase)
        × (condition_status (ended && failed) ≡ flag_status "Error" phase))
unfolding condition_status
flag_status-chosen_phase true superseded true = (refl, refl, refl)
flag_status-chosen_phase true superseded false = (refl, refl, refl)
flag_status-chosen_phase false true true = (refl, refl, refl)
flag_status-chosen_phase false true false = (refl, refl, refl)
flag_status-chosen_phase false false failed = (refl, refl, refl)

phase-chosen_phase :
    (applied superseded failed : Bool)
    → (let phase = chosen_phase applied superseded failed in
        (if flag_status "Error" phase == "True"
          then "Error"
          else if flag_status "Ready" phase == "True"
          then "Ready"
          else "Configuring")
        ≡ phase)
phase-chosen_phase true superseded true = refl
phase-chosen_phase true superseded false = refl
phase-chosen_phase false true true = refl
phase-chosen_phase false true false = refl
phase-chosen_phase false false failed = refl

module _ {T : Types} where
  abbrev pub phase_of : RedkeyConfig T → String
  phase_of active = expected_phase active.status.config_phase active.status.status

  -- The flag that stands for one phase.
  abbrev pub shown : RedkeyConfig T → String → Reading
  shown active phase = (flag_status phase (phase_of active), "StatusAggregated", "")

  -- Robin is done with the config and left it in good health.
  abbrev pub ended_ready : RedkeyConfig T → Bool
  ended_ready active =
      (active.status.config_phase == "Applied" || active.status.config_phase == "Superseded")
      && active.status.status == "Ready"

  flags :
      (active : RedkeyConfig T)
      → (let phase = phase_of active in
          (condition_status (is_config_ready active) ≡ flag_status "Ready" phase)
          × (condition_status (not (is_terminal_config_phase active.status.config_phase))
              ≡ flag_status "Configuring" phase)
          × (condition_status (has_config_error active) ≡ flag_status "Error" phase))
  unfolding is_config_ready has_config_error is_terminal_config_phase
  flags active =
      flag_status-chosen_phase (active.status.config_phase == "Applied")
        (active.status.config_phase == "Superseded") (active.status.status == "Error")

module _ {T : Types} (K : Kube T) where
  -- What a status is to say of a health condition: what the config says of it once the config has
  -- settled in good health, and otherwise that it is unknown.
  abbrev pub mirrored : RedkeyConfig T → String → Reading
  mirrored active kind =
      let unknown : Reading = ("Unknown", "Reconciling", "") in
      if ended_ready active
      then (elim (reading K active.status.conditions kind) [ some r ↦ r | none ↦ unknown ])
      else unknown

  is_condition_true-reading :
      (cs : List (Condition T)) (kind : String)
      → is_condition_true (K.find_status_condition cs kind)
        ≡ (elim (reading K cs kind) [ some r ↦ r.0 == condition_true | none ↦ false ])
  unfolding is_condition_true
  is_condition_true-reading cs kind = ground arith

  health_condition-mirrored :
      (active : RedkeyConfig T) (kind : String)
      → (let c = health_condition K active kind in
          (c.kind ≡ kind) × ((c.status, c.reason, c.message) ≡ mirrored active kind))
  unfolding health_condition is_settled is_terminal_config_phase
  health_condition-mirrored active kind = elim (Bool-cases (ended_ready active)) [
    | inl e ↦ elim (Option-cases (K.find_status_condition active.status.conditions kind)) [
      | inl absent ↦ rw (e, absent) (refl, refl)
      | inr (c, found) ↦ rw (e, found) (refl, refl)
    ]
    | inr e ↦ rw (e) (refl, refl)
  ]

  module _ (laws : ConditionLaws K) where
    reading-health :
        (t : Time) (active : RedkeyConfig T) (cs : List (Condition T)) (k kind : String)
        → reading K (K.set_status_condition t cs (health_condition K active k)) kind
          ≡ (if kind == k then some (mirrored active kind) else reading K cs kind)
    reading-health t active cs k kind =
        laws.reading-set t cs (health_condition K active k) kind ∙ (elim (String-cases kind k) [
          | inl (e, same) ↦ ground (
            arith,
            health_condition-mirrored active k,
            e,
            ap (mirrored active) same,
            ap (λ x. x == k) same,
          )
          | inr (e, differ) ↦ rw ((health_condition-mirrored active k).0, e) refl
        ])

    reading-set_health_conditions :
        (t : Time) (active : RedkeyConfig T) (kinds : List String) (cs : List (Condition T))
        (kind : String)
        → reading K (set_health_conditions K t active kinds cs) kind
          ≡ (if contains kind kinds then some (mirrored active kind) else reading K cs kind)
    unfolding set_health_conditions
    reading-set_health_conditions t active [] cs kind = refl
    reading-set_health_conditions t active (k ∷ kinds) cs kind =
        reading-set_health_conditions t active kinds _ kind
        ∙ ground (arith, reading-health t active cs k kind)

    -- Three flags are set before the health conditions.
    reading-flag :
        (t : Time) (cs : List (Condition T)) (flag kind : String) (b : Bool)
        → reading K
            (K.set_status_condition t cs
              (condition T flag (condition_status b) "StatusAggregated" ""))
            kind
          ≡ (if kind == flag
              then some (condition_status b, "StatusAggregated", "")
              else reading K cs kind)
    reading-flag t cs flag kind b =
        laws.reading-set t cs (condition T flag (condition_status b) "StatusAggregated" "") kind

    -- Where a condition that was set is found again: of the three flags of the status exactly one is
    -- true. Ready is where the active config is Applied or Superseded and its status is not Error,
    -- Error where it is Applied or Superseded with that status, and ConfigPending where the config
    -- is in any other phase.
    pub reading-flags :
        (t : Time) (existing : List (Condition T)) (active : RedkeyConfig T)
        → (let cs = aggregate_conditions K t existing active in
            (reading K cs "Ready" ≡ some (shown active "Ready"))
            × (reading K cs "ConfigPending" ≡ some (shown active "Configuring"))
            × (reading K cs "Error" ≡ some (shown active "Error")))
    unfolding aggregate_conditions aggregate_health_conditions
    reading-flags t existing active = (
      reading-set_health_conditions t active health_condition_types _ "Ready"
          ∙ (reading-flag t _ "Error" "Ready" _
              ∙ (reading-flag t _ "ConfigPending" "Ready" _
                  ∙ (reading-flag t _ "Ready" "Ready" _ ∙ rw ((flags active).0) refl))),
      reading-set_health_conditions t active health_condition_types _ "ConfigPending"
          ∙ (reading-flag t _ "Error" "ConfigPending" _
              ∙ (reading-flag t _ "ConfigPending" "ConfigPending" _ ∙ rw ((flags active).1) refl)),
      reading-set_health_conditions t active health_condition_types _ "Error"
          ∙ (reading-flag t _ "Error" "Error" _ ∙ rw ((flags active).2) refl),
    )

    -- Where a condition that was set is found again: whatever conditions there were before, the
    -- phase of the status is Error when the active config is Applied or Superseded with the status
    -- Error, Ready when it is Applied or Superseded with any other status, and Configuring in any
    -- other phase of the config.
    pub compute_phase-aggregate_conditions :
        (t : Time) (existing : List (Condition T)) (active : RedkeyConfig T)
        → compute_phase_from_conditions K (aggregate_conditions K t existing active)
          ≡ phase_of active
    unfolding compute_phase_from_conditions
    compute_phase-aggregate_conditions t existing active =
        let cs = aggregate_conditions K t existing active in
        let (ready, pending, failed) = reading-flags t existing active in
        let error_read = is_condition_true-reading cs "Error" in
        let ready_read = is_condition_true-reading cs "Ready" in
        rw (error_read, failed, ready_read, ready)
          (phase-chosen_phase (active.status.config_phase == "Applied")
            (active.status.config_phase == "Superseded") (active.status.status == "Error"))
