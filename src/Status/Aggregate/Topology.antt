-- ===== src/Status/Aggregate/Topology.antt =====
-- The last applied topology in the status, over a history of status writes by the operator.
use redkey_operator.Common.{
  Bool, false, ◌==◌, Option, none, some, List, [], ◌∷◌, ◌≡◌, refl, ap, ◌∙◌, arith, if◌then◌else◌,
  Bool-cases, inl, inr,
}
use redkey_operator.Common.Int.{ℤ, pos, ◌<ℤ◌, ltb_ℤ}
use redkey_operator.Api.Types.{Types, Time}
use redkey_operator.Api.Config.{RedkeyConfig}
use redkey_operator.Api.Redkey.{Redkey, RedkeyStatus}
use redkey_operator.Kube.Client.{Kube}
use redkey_operator.Status.Aggregate.{records_topology, aggregated_status}
use redkey_operator.ScaleZero.Teardown.{scaled_to_zero_status}

-- The two places at which the operator writes a status, with the object that it fetched before. The
-- status of that object is what the write before left.
pub data StatusWrite (T : Types) : Type 0 where
  aggregated : ℤ → RedkeyConfig T → Time → Redkey T → StatusWrite T
  scaled_to_zero : Time → Redkey T → StatusWrite T

module _ {T : Types} where
  -- The primaries and the replicas for each.
  abbrev pub topology : RedkeyStatus T → ℤ × ℤ
  topology s = (s.last_applied_primaries, s.last_applied_replicas_per_primary)

  -- Whether a status that is aggregated from an active config tells a topology that was applied, on
  -- a cluster with storage and with primaries.
  abbrev pub was_applied : Redkey T → RedkeyConfig T → Bool
  was_applied latest active =
      if latest.spec.ephemeral
      then false
      else if active.status.config_phase == "Applied"
      then ltb_ℤ (pos 0) active.spec.primaries
      else false

  records_topology-was_applied :
      (latest : Redkey T) (active : RedkeyConfig T)
      → records_topology latest active ≡ was_applied latest active
  unfolding records_topology
  records_topology-was_applied latest active = ground arith

  -- The topology of the last config of a history that was applied so.
  abbrev pub last_recorded : List (StatusWrite T) → Option (ℤ × ℤ)
  last_recorded [] = none
  last_recorded (aggregated observed active t latest ∷ history) =
      let later = last_recorded history in
      elim later [
        | some found ↦ some found
        | none ↦
            if was_applied latest active
            then some (active.spec.primaries, active.spec.replicas_per_primary)
            else none
      ]
  last_recorded (scaled_to_zero t cluster ∷ history) = last_recorded history

  module _ (K : Kube T) where
    abbrev written : StatusWrite T → RedkeyStatus T → RedkeyStatus T
    written (aggregated observed active t latest) s =
        aggregated_status K observed active t (record latest { status = s })
    written (scaled_to_zero t cluster) s = scaled_to_zero_status K t (record cluster { status = s })

    abbrev pub after : List (StatusWrite T) → RedkeyStatus T → RedkeyStatus T
    after [] s = s
    after (w ∷ history) s = after history (written w s)

    topology-written :
        (observed : ℤ) (active : RedkeyConfig T) (t : Time) (latest : Redkey T) (s : RedkeyStatus T)
        → topology (aggregated_status K observed active t (record latest { status = s })) ≡ (
            if was_applied latest active
            then (active.spec.primaries, active.spec.replicas_per_primary)
            else topology s)
    unfolding aggregated_status
    topology-written observed active t latest s =
        let same = records_topology-was_applied latest active in
        elim (Bool-cases (was_applied latest active)) [
          | inl e ↦ rw (same, e) refl
          | inr e ↦ rw (same, e) refl
        ]

    -- After any history of status writes, through scale-to-zero or not, the status holds the
    -- topology of the last config that was Applied with primaries on a cluster with storage, and
    -- what it held before where there was none.
    pub topology-after :
        (history : List (StatusWrite T)) (s : RedkeyStatus T)
        → topology (after history s)
          ≡ (elim (last_recorded history) [ some found ↦ found | none ↦ topology s ])
    unfolding scaled_to_zero_status
    topology-after [] s = refl
    topology-after (aggregated observed active t latest ∷ history) s =
        topology-after history _ ∙ ground (arith, topology-written observed active t latest s)
    topology-after (scaled_to_zero t cluster ∷ history) s = topology-after history _

    -- A topology that was recorded is never cleared: once the status names primaries, it names some
    -- after every history of status writes.
    pub topology-never_cleared :
        (history : List (StatusWrite T)) (s : RedkeyStatus T)
        → pos 0 <ℤ s.last_applied_primaries
        → pos 0 <ℤ (after history s).last_applied_primaries
    unfolding scaled_to_zero_status
    topology-never_cleared [] s h = h
    topology-never_cleared (aggregated observed active t latest ∷ history) s h =
        topology-never_cleared history _
          (ground (arith, h, ap (λ p. p.0) (topology-written observed active t latest s)))
    topology-never_cleared (scaled_to_zero t cluster ∷ history) s h =
        topology-never_cleared history _ h
