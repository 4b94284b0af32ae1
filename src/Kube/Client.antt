-- ===== src/Kube/Client.antt =====
-- The interface: an API server whose state any call may move on, since other clients are at work.
use redkey_operator.Common.{String, Bool, Option, List, ◌≡◌}
use redkey_operator.Common.GoMap.{GoMap}
use redkey_operator.Api.Types.{Types, Time}
use redkey_operator.Api.Meta.{NamespacedName, ObjectMeta, Condition}
use redkey_operator.Api.Redkey.{Redkey}
use redkey_operator.Api.Config.{RedkeyConfig}
use redkey_operator.Api.Workload.{ServiceAccount, Role, RoleBinding, Deployment}

-- A Go function's `(value, error)`.
pub data Result {ℓ κ} (E : Type ℓ) (A : Type κ) : Type (ℓ ⊔ κ) where
  ok : A → Result E A
  err : E → Result E A

pub ok_injective {ℓ κ} :
    {E : Type ℓ} {A : Type κ} {a b : A} → ◌≡◌ {A = Result E A} (ok a) (ok b) → a ≡ b
ok_injective h = cc

-- An error of the client, or one wrapped by `fmt.Errorf("…: %w", err)`.
pub data Error (E : Type 0) : Type 0 where
  api : E → Error E
  wrapped : String → Error E → Error E

pub data Kind : Type 0 where
  service_account role role_binding deployment config : Kind

pub data Object (T : Types) : Type 0 where
  of_service_account : ServiceAccount T → Object T
  of_role : Role T → Object T
  of_role_binding : RoleBinding T → Object T
  of_deployment : Deployment T → Object T
  of_config : RedkeyConfig T → Object T

-- A request of the operator that changes the server: `Create`, `Patch` with `MergeFrom` of the
-- first object, `Delete` and `Status().Update`.
pub data Write (T : Types) : Type 0 where
  create : Object T → Write T
  patch : Object T → Object T → Write T
  delete : Kind → NamespacedName → Write T
  update_status : Redkey T → Write T

pub record Kube (T : Types) : Type 1 where
  -- the server, the cache in front of it, the clock and everybody else who writes
  pub World : Type 0
  pub ApiError : Type 0
  pub is_not_found : ApiError → Bool
  pub is_already_exists : ApiError → Bool
  pub is_conflict : ApiError → Bool
  -- metav1.Now, time.Now
  pub now : World → Time × World
  -- client.Client
  pub get_redkey : NamespacedName → World → Result ApiError (Redkey T) × World
  pub get_service_account : NamespacedName → World → Result ApiError (ServiceAccount T) × World
  pub get_role : NamespacedName → World → Result ApiError (Role T) × World
  pub get_role_binding : NamespacedName → World → Result ApiError (RoleBinding T) × World
  pub get_deployment : NamespacedName → World → Result ApiError (Deployment T) × World
  -- `List` in a namespace, with one label to match
  pub list_configs :
      String → String → String → World → Result ApiError (List (RedkeyConfig T)) × World
  pub submit : Write T → World → Result ApiError (Unit {0}) × World
  -- `Status().Update` writes the server's reply to its argument
  pub submit_status : Redkey T → World → Result ApiError (Redkey T) × World
  -- controllerutil.SetControllerReference(owner, controlled, scheme), on the metadata of both
  pub set_controller_reference : ObjectMeta T → ObjectMeta T → Result ApiError (ObjectMeta T)
  -- retry.RetryOnConflict(retry.DefaultRetry, fn)
  pub retry_on_conflict : {S A E : Type 0} → (E → Bool) → (S → Result E A × S) → S → Result E A × S
  -- equality.Semantic, its DeepEqual at labels and annotations and at other types
  pub deep_equal_maps : GoMap String → GoMap String → Bool
  pub deep_equal : {A : Type 0} → A → A → Bool
  pub deep_derivative : {A : Type 0} → A → A → Bool
  -- meta.SetStatusCondition, called at a time, and meta.FindStatusCondition
  pub set_status_condition : Time → List (Condition T) → Condition T → List (Condition T)
  pub find_status_condition : List (Condition T) → String → Option (Condition T)
