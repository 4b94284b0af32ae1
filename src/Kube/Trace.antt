-- ===== src/Kube/Trace.antt =====
-- Which writes an action has sent when it succeeds, in their order.
use mathlib.Core.List.{append_assoc, append-nil}
use redkey_operator.Common.{
  String, Bool, true, false, List, [], ◌∷◌, ◌++◌, ◌≡◌, refl, sym, ap, subst, ◌∙◌, if◌then◌else◌,
}
use redkey_operator.Api.Types.{Types}
use redkey_operator.Api.Redkey.{Redkey}
use redkey_operator.Kube.Client.{ok_injective, Result, ok, err, Error, Write, update_status}
use redkey_operator.Kube.Action.{
  Env, State, Outcome, Action, continue, answer, wrap_outcome, pure, fail, attempt, lift, read,
  clock, send, send_status, emit, wrap_error, ◌>>=◌,
}

-- After a success the writes that were added, and the result, satisfy `W`.
pub record Trace {T : Types} {K : Env T} {A : Type 0} (m : Action K A)
    (W : A → List (Write T) → Type 0) : Type 0 where
  pub at :
      (s : State K) (a : A) (s' : State K)
      → m.run s ≡ (ok a, s')
      → (ws : List (Write T)) × (s'.sent ≡ s.sent ++ ws) × W a ws

-- Nothing is sent, or one write.
abbrev pub Silent : {T : Types} {A : Type 0} → A → List (Write T) → Type 0
Silent a ws = ws ≡ []

abbrev pub Only : {T : Types} {A : Type 0} → Write T → A → List (Write T) → Type 0
Only w a ws = ws ≡ w ∷ []

ok_parts :
    {T : Types} {K : Env T} {A : Type 0} (a a' : A) (s s' : State K)
    → ◌≡◌ {A = Outcome K A} (ok a, s) (ok a', s')
    → (a ≡ a') × (s ≡ s')
ok_parts a a' s s' e = (ok_injective (ap (λ p. p.0) e), ap (λ p. p.1) e)

answer-sent :
    {T : Types} {K : Env T} {A : Type 0} (r : Result K.ApiError A) (s : State K) (a : A)
    (s' : State K)
    → answer {K = K} r s ≡ (ok a, s')
    → s'.sent ≡ s.sent
answer-sent (ok b) s a s' e = sym (ap (λ x. x.sent) (ok_parts b a s s' e).1)
answer-sent (err b) s a s' e = absurd (cc)

answered :
    {T : Types} {K : Env T} {A : Type 0} (r : Result K.ApiError A) (s : State K) (a : A)
    (s' : State K)
    → answer {K = K} r s ≡ (ok a, s')
    → r ≡ ok a
answered (ok b) s a s' h = ap (λ x. ok x) (ok_parts b a s s' h).0
answered (err b) s a s' h = absurd (cc)

module _ {T : Types} {K : Env T} where
  pub Trace-bind :
      {A B : Type 0} {m : Action K A} {f : A → Action K B} (W : A → List (Write T) → Type 0)
      (V : A → B → List (Write T) → Type 0) (U : B → List (Write T) → Type 0)
      → Trace m W
      → ((a : A) → Trace (f a) (V a))
      → ((a : A) (b : B) (ws vs : List (Write T)) → W a ws → V a b vs → U b (ws ++ vs))
      → Trace (m >>= f) U
  unfolding ◌>>=◌
  Trace-bind {A} {B} {m} {f} W V U first second both = record {
    at = λ s b s' e. by_first s b s' (m.run s) refl e;
  }
    where
      by_first :
          (s : State K) (b : B) (s' : State K) (o : Outcome K A)
          → m.run s ≡ o
          → continue f o ≡ (ok b, s')
          → (ws : List (Write T)) × (s'.sent ≡ s.sent ++ ws) × U b ws
      by_first s b s' (ok a, s1) e h =
          let (ws, eq, w) = first.at s a s1 e in
          let (vs, eq', v) = (second a).at s1 b s' h in
          (ws ++ vs, eq' ∙ (ap (λ xs. xs ++ vs) eq ∙ append_assoc s.sent ws vs), both a b ws vs w v)
      by_first s b s' (err e', s1) e h = absurd (cc)

  pub Trace-pure :
      {A : Type 0} (a : A) (W : A → List (Write T) → Type 0) → W a [] → Trace (pure {K = K} a) W
  unfolding pure
  Trace-pure a W w = record {
    at = λ s a' s' e.
        let (same, left) = ok_parts a a' s s' e in
        ([], sym (ap (λ x. x.sent) left) ∙ sym (append-nil s.sent), subst (λ x. W x []) same w);
  }

  pub Trace-fail :
      {A : Type 0} (e : Error K.ApiError) (W : A → List (Write T) → Type 0)
      → Trace (fail {K = K} {A = A} e) W
  unfolding fail
  Trace-fail e W = record { at = λ s a s' h. absurd (cc) }

  pub Trace-clock : Trace (clock {K = K}) Silent
  unfolding clock
  Trace-clock = record {
    at = λ s a s' h.
        ([], sym (ap (λ x. x.sent) (ok_parts _ a _ s' h).1) ∙ sym (append-nil s.sent), refl);
  }

  pub Trace-emit : (g : K.Registry → K.Registry) → Trace (emit {K = K} g) Silent
  unfolding emit
  Trace-emit g = record {
    at = λ s a s' h.
        ([], sym (ap (λ x. x.sent) (ok_parts _ a _ s' h).1) ∙ sym (append-nil s.sent), refl);
  }

  pub Trace-send : (w : Write T) → Trace (send {K = K} w) (Only w)
  unfolding send
  Trace-send w = record { at = λ s a s' h. (w ∷ [], answer-sent _ _ a s' h, refl) }

  -- Also a write that the server refuses is recorded.
  pub Trace-attempt-send : (w : Write T) → Trace (attempt (send {K = K} w)) (Only w)
  unfolding send attempt
  Trace-attempt-send w = record { at = λ s a s' h. (w ∷ [], sent_anyway s a s' h, refl) }
    where
      left : (r : Result K.ApiError (Unit {0})) (s : State K) → (answer {K = K} r s).1.sent ≡ s.sent
      left (ok u) s = refl
      left (err e) s = refl

      sent_anyway :
          (s : State K) (a : Result (Error K.ApiError) (Unit {0})) (s' : State K)
          → (attempt (send {K = K} w)).run s ≡ (ok a, s')
          → s'.sent ≡ s.sent ++ w ∷ []
      sent_anyway s a s' h =
          sym (ap (λ x. x.sent) (ok_parts _ a _ s' h).1)
          ∙ left (K.submit w s.world).0
              (record s { world = (K.submit w s.world).1; sent = s.sent ++ w ∷ [] })

  -- What was read is what the server answers at some moment.
  pub Trace-read :
      {A : Type 0} (f : K.World → Result K.ApiError A × K.World)
      → Trace (read {K = K} f) (λ a ws. ((w : K.World) × ((f w).0 ≡ ok a)) × (ws ≡ []))
  unfolding read
  Trace-read {A} f = record {
    at = λ s a s' h. (
      [],
      answer-sent _ _ a s' h ∙ sym (append-nil s.sent),
      ((s.world, answered (f s.world).0 (record s { world = (f s.world).1 }) a s' h), refl),
    );
  }

  pub Trace-send_status : (c : Redkey T) → Trace (send_status {K = K} c) (Only (update_status c))
  unfolding send_status
  Trace-send_status c = record {
    at = λ s a s' h. (update_status c ∷ [], answer-sent _ _ a s' h, refl);
  }

  pub Trace-wrap_error :
      {A : Type 0} (text : String) (m : Action K A) (W : A → List (Write T) → Type 0)
      → Trace m W
      → Trace (wrap_error text m) W
  unfolding wrap_error
  Trace-wrap_error {A} text m W t = record {
    at = λ s a s' h. t.at s a s' (unwrapped (m.run s) a s' h);
  }
    where
      unwrapped :
          (o : Outcome K A) (a : A) (s' : State K)
          → wrap_outcome {K = K} text o ≡ (ok a, s')
          → o ≡ (ok a, s')
      unwrapped (ok b, s) a s' h = h
      unwrapped (err b, s) a s' h = absurd (cc)

  pub Trace-if :
      {A : Type 0} (b : Bool) {m n : Action K A} (W : A → List (Write T) → Type 0)
      → Trace m W
      → Trace n W
      → Trace (if b then m else n) W
  Trace-if true W t u = t
  Trace-if false W t u = u

  pub Trace-lift_with :
      {A : Type 0} (r : Result K.ApiError A)
      → Trace (lift {K = K} r) (λ a ws. (r ≡ ok a) × (ws ≡ []))
  unfolding lift
  Trace-lift_with r = record {
    at = λ s a s' h.
        ([], answer-sent r s a s' h ∙ sym (append-nil s.sent), (answered r s a s' h, refl));
  }
