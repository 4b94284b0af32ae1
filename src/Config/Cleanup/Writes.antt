-- ===== src/Config/Cleanup/Writes.antt =====
-- What cleanupSupersededConfigs sends.
use redkey_operator.Common.{ℕ, zero, suc, List, [], ◌∷◌, Option, none, some, All, take, leb, length}
use redkey_operator.Api.Types.{Types}
use redkey_operator.Api.Config.{RedkeyConfig}
use redkey_operator.Kube.Client.{Write, delete, config, ok, err}
use redkey_operator.Kube.Action.{Env, not_found}
use redkey_operator.Kube.Keeps.{
  Keeps, Any, Keeps-then, Keeps-pure, Keeps-if, Keeps-attempt-Any, Keeps-fail,
}
use redkey_operator.Kube.Sent.{Sent, Keeps-send, Keeps-emit}
use redkey_operator.Config.Cleanup.{
  config_key, last_applied, delete_superseded, delete_all, delete_older, cleanup_superseded_configs,
}

module _ {T : Types} (K : Env T) (Q : Write T → Type 0) where
  delete_superseded-Sent :
      (c : RedkeyConfig T)
      → Q (delete config (config_key c))
      → Keeps (Sent Q) (delete_superseded K c) Any
  unfolding delete_superseded
  delete_superseded-Sent c q = Keeps-then _ _ (Keeps-attempt-Any _ (Keeps-send _ q)) (elim [
    | ok _ ↦ Keeps-emit _
    | err e ↦ Keeps-if (not_found K e) _ _ (λ _. Keeps-pure tt tt) (λ _. Keeps-fail e)
  ])

  delete_all-Sent :
      (configs : List (RedkeyConfig T))
      → All (λ c. Q (delete config (config_key c))) configs
      → Keeps (Sent Q) (delete_all K configs) Any
  unfolding delete_all
  delete_all-Sent [] h = Keeps-pure tt tt
  delete_all-Sent (c ∷ configs) h =
      Keeps-then _ _ (delete_superseded-Sent c h.0) λ _. delete_all-Sent configs h.1

  -- Only configs of the list are deleted.
  pub cleanup_superseded_configs-Sent :
      (configs : List (RedkeyConfig T))
      → ((c : RedkeyConfig T) → Q (delete config (config_key c)))
      → Keeps (Sent Q) (cleanup_superseded_configs K configs) Any
  unfolding cleanup_superseded_configs
  cleanup_superseded_configs-Sent configs q =
      Keeps-if (leb (length configs) 1) _ _ (λ _. Keeps-pure configs tt)
        λ _. older (last_applied (length configs) configs)
    where
      every : (cs : List (RedkeyConfig T)) → All (λ c. Q (delete config (config_key c))) cs
      every [] = tt
      every (c ∷ cs) = (q c, every cs)

      older : (i : Option ℕ) → Keeps (Sent Q) (delete_older K configs i) Any
      older none = Keeps-pure configs tt
      older (some zero) = Keeps-pure configs tt
      older (some (suc i)) =
          Keeps-then _ _ (delete_all-Sent _ (every (take (suc i) configs))) λ _. Keeps-pure _ tt
