-- ===== src/ScaleZero/Teardown/Writes.antt =====
-- What the teardown sends.
use redkey_operator.Api.Types.{Types}
use redkey_operator.Api.Redkey.{Redkey}
use redkey_operator.Kube.Client.{Write, update_status}
use redkey_operator.Kube.Action.{Env}
use redkey_operator.Kube.Keeps.{Keeps, Any}
use redkey_operator.Kube.Sent.{Sent, sent_rules}
use redkey_operator.ScaleZero.Teardown.{update_status_scaled_to_zero}

module _ {T : Types} (K : Env T) (Q : Write T → Type 0) where
  pub update_status_scaled_to_zero-Sent :
      ((c : Redkey T) → Q (update_status c))
      → (cluster : Redkey T) → Keeps (Sent Q) (update_status_scaled_to_zero K cluster) Any
  unfolding update_status_scaled_to_zero
  update_status_scaled_to_zero-Sent allowed cluster = search (sent_rules, allowed) depth 8
