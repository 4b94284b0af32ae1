-- ===== src/Kube/Runs/Sends.antt =====
-- Writes that are sent to a server of which something is known.
use redkey_operator.Common.{[], ◌∷◌, ◌++◌, ◌≡◌, refl, ap}
use redkey_operator.Api.Types.{Types}
use redkey_operator.Api.Redkey.{Redkey}
use redkey_operator.Kube.Client.{Result, ok, err, Error, Write, update_status}
use redkey_operator.Kube.Does.{lifted}
use redkey_operator.Kube.Action.{Env, State, Outcome, answer, attempt, send, send_status}
use redkey_operator.Kube.Runs.{Runs}

module _ {T : Types} {K : Env T} {V : Type 0} {view : K.World → V} where
  pub Runs-send :
      (w : Write T) {v : V} (Q : V → Type 0)
      → ((world : K.World)
          → view world ≡ v
          → ((K.submit w world).0 ≡ ok tt) × Q (view (K.submit w world).1))
      → Runs view (send {K = K} w) v (λ u v' ws. Q v' × (ws ≡ w ∷ []))
  unfolding send
  Runs-send w Q accepted = record {
    at = λ s e.
        let s' : State K = record s { world = (K.submit w s.world).1; sent = s.sent ++ w ∷ [] } in
        (
          tt,
          s',
          w ∷ [],
          ap (λ x. answer {K = K} x s') (accepted s.world e).0,
          refl,
          ((accepted s.world e).1, refl),
        );
  }

  pub Runs-attempt-send :
      (w : Write T) {v : V} (P : Result (Error K.ApiError) (Unit {0}) → Type 0) (Q : V → Type 0)
      → ((world : K.World)
          → view world ≡ v
          → P (lifted (K.submit w world).0) × Q (view (K.submit w world).1))
      → Runs view (attempt (send {K = K} w)) v (λ r v' ws. P r × Q v' × (ws ≡ w ∷ []))
  unfolding attempt send
  Runs-attempt-send w P Q answers = record {
    at = λ s e.
        let s' : State K = record s { world = (K.submit w s.world).1; sent = s.sent ++ w ∷ [] } in
        (
          lifted (K.submit w s.world).0,
          s',
          w ∷ [],
          split (K.submit w s.world).0 s',
          refl,
          ((answers s.world e).0, (answers s.world e).1, refl),
        );
  }
    where
      split :
          (r : Result K.ApiError (Unit {0})) (s' : State K)
          → ◌≡◌ {A = Outcome K (Result (Error K.ApiError) (Unit {0}))}
              (let (r', s1) = answer {K = K} r s' in (ok r', s1))
              (ok (lifted r), s')
      split (ok a) s' = refl
      split (err e) s' = refl

  pub Runs-send_status :
      (c : Redkey T) {v : V} (Q : Redkey T → V → Type 0)
      → ((world : K.World)
          → view world ≡ v
          → (d : Redkey T) × ((K.submit_status c world).0 ≡ ok d)
            × Q d (view (K.submit_status c world).1))
      → Runs view (send_status {K = K} c) v (λ d v' ws. Q d v' × (ws ≡ update_status c ∷ []))
  unfolding send_status
  Runs-send_status c Q accepted = record {
    at = λ s e.
        let (d, took, q) = accepted s.world e in
        let s' : State K = record s {
          world = (K.submit_status c s.world).1;
          sent = s.sent ++ update_status c ∷ [];
        } in
        (d, s', update_status c ∷ [], ap (λ x. answer {K = K} x s') took, refl, (q, refl));
  }
