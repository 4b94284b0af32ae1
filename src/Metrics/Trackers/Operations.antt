-- ===== src/Metrics/Trackers/Operations.antt =====
-- What the operation tracker holds after an observation.
use redkey_operator.Common.{
  String, true, false, Option, none, some, ◌≡◌, refl, ap, arith, if◌then◌else◌, eq_refl, Bool-cases,
  String-cases, inl, inr,
}
use redkey_operator.Api.Types.{Types}
use redkey_operator.Api.Meta.{NamespacedName}
use redkey_operator.Kube.Action.{Env, State, ActiveOperation, ◌>>=◌, same_key}
use redkey_operator.Metrics.Trackers.{
  in_operation, start_operation, finish_operation, observe_tracked, observe_operation,
}

abbrev pub operation_name : Option ActiveOperation → Option String
operation_name none = none
operation_name (some op) = some op.operation

pub same_key_refl : (key : NamespacedName) → same_key key key ≡ true
same_key_refl key = ground (arith, eq_refl key.namespace, eq_refl key.name)

module _ {T : Types} (K : Env T) where
  observe_tracked-active :
      (key : NamespacedName) (status phase : String) (tracked : Option ActiveOperation)
      (s : State K)
      → s.active key ≡ tracked
      → (let s' = ((observe_tracked K key status phase tracked).run s).1 in
          (operation_name (s'.active key) ≡ (if in_operation status then some status else none))
          × ((other : NamespacedName)
              → same_key other key ≡ false
              → s'.active other ≡ s.active other))
  unfolding observe_tracked start_operation finish_operation ◌>>=◌
  observe_tracked-active key status phase none s h = elim (Bool-cases (in_operation status)) [
    | inl e ↦ (ground (arith, e, same_key_refl key), λ other apart. ground (arith, e, apart))
    | inr e ↦ (ground (arith, e, h), λ other apart. ground (arith, e, apart))
  ]
  observe_tracked-active key status phase (some current) s h =
      elim (Bool-cases (in_operation status)) [
        | inl e ↦ elim (String-cases current.operation status) [
          | inl (e', same) ↦ (
            ground (arith, e, e', h, ap (λ x. some x) same),
            λ other apart. ground (arith, e, e', apart),
          )
          | inr (e', differ) ↦ (
            ground (arith, e, e', same_key_refl key),
            λ other apart. ground (arith, e, e', apart),
          )
        ]
        | inr e ↦ (ground (arith, e, same_key_refl key), λ other apart. ground (arith, e, apart))
      ]

  -- After an observation the tracker holds the operation that the status names, under that name,
  -- and none where the status names none, whatever it held. Other clusters' operations stay.
  pub observe_operation-active :
      (key : NamespacedName) (status phase : String) (s : State K)
      → (let s' = ((observe_operation K key status phase).run s).1 in
          (operation_name (s'.active key) ≡ (if in_operation status then some status else none))
          × ((other : NamespacedName)
              → same_key other key ≡ false
              → s'.active other ≡ s.active other))
  unfolding observe_operation
  observe_operation-active key status phase s =
      observe_tracked-active key status phase (s.active key) s refl
