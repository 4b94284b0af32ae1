-- ===== src/Kube/Store.antt =====
-- An abstract view of the API server: which objects are there, and what a write that is accepted does
-- to them.
pub mod Known
use redkey_operator.Common.{Bool, true, false, ◌&&◌, List, [], ◌∷◌, ◌++◌, ◌≡◌, refl, if◌then◌else◌}
use redkey_operator.Api.Types.{Types}
use redkey_operator.Api.Meta.{NamespacedName, ObjectMeta}
use redkey_operator.Kube.Client.{
  Kind, Object, Write, service_account, role, role_binding, deployment, config, of_service_account,
  of_role, of_role_binding, of_deployment, of_config, create, patch, delete, update_status,
}
use redkey_operator.Kube.Action.{same_key}

-- Whether there is an object of a kind under a key.
abbrev pub Store : Type 0
Store = Kind → NamespacedName → Bool

abbrev pub same_kind : Kind → Kind → Bool
same_kind service_account service_account = true
same_kind role role = true
same_kind role_binding role_binding = true
same_kind deployment deployment = true
same_kind config config = true
same_kind _ _ = false

abbrev put : Kind → NamespacedName → Bool → Store → Store
put kind key there store k j = if same_kind k kind && same_key j key then there else store k j

abbrev key_of : {T : Types} → ObjectMeta T → NamespacedName
key_of m = record { namespace = m.namespace; name = m.name }

module _ {T : Types} where
  abbrev add : Object T → Store → Store
  add (of_service_account o) = put service_account (key_of o.meta) true
  add (of_role o) = put role (key_of o.meta) true
  add (of_role_binding o) = put role_binding (key_of o.meta) true
  add (of_deployment o) = put deployment (key_of o.meta) true
  add (of_config o) = put config (key_of o.meta) true

  abbrev pub apply_write : Write T → Store → Store
  apply_write (create o) store = add o store
  apply_write (patch old new) store = store
  apply_write (delete kind key) store = put kind key false store
  apply_write (update_status c) store = store

  -- The writes of an action, the oldest first.
  abbrev pub replay : List (Write T) → Store → Store
  replay [] store = store
  replay (w ∷ ws) store = replay ws (apply_write w store)

  pub replay-append :
      (ws vs : List (Write T)) (store : Store)
      → replay (ws ++ vs) store ≡ replay vs (replay ws store)
  replay-append [] vs store = refl
  replay-append (w ∷ ws) vs store = replay-append ws vs (apply_write w store)
