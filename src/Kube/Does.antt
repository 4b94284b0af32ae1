-- ===== src/Kube/Does.antt =====
-- Actions that are sure to succeed, and what they send: total correctness, one rule for each way to
-- build an action.
pub mod Quiet
use mathlib.Core.List.{append_assoc, append-nil}
use redkey_operator.Common.{
  String, Bool, true, false, List, [], ◌∷◌, ◌++◌, ◌≡◌, refl, sym, ap, ◌∙◌, if◌then◌else◌, All,
  All-append,
}
use redkey_operator.Api.Types.{Types}
use redkey_operator.Api.Redkey.{Redkey}
use redkey_operator.Kube.Client.{Result, ok, err, Error, api, Write, update_status}
use redkey_operator.Kube.Laws.{Retried, last, again, RetryLaw}
use redkey_operator.Kube.Trace.{Trace}
use redkey_operator.Kube.Action.{
  Env, State, Outcome, Action, continue, answer, wrap_outcome, pure, attempt, when, lift, read,
  clock, send, send_status, emit, retry_on_conflict, wrap_error, ◌>>=◌, conflict,
}

-- From every state `m` succeeds, and the result and the writes that it added satisfy `W`.
pub record Does {T : Types} {K : Env T} {A : Type 0} (m : Action K A)
    (W : A → List (Write T) → Type 0) : Type 0 where
  pub at :
      (s : State K)
      → (a : A) × (s' : State K) × (ws : List (Write T)) × (m.run s ≡ (ok a, s'))
        × (s'.sent ≡ s.sent ++ ws)
        × W a ws

-- What was sent is of a kind.
abbrev pub Sends : {T : Types} {A : Type 0} → (Write T → Type 0) → A → List (Write T) → Type 0
Sends Q a ws = All Q ws

-- Anything may have been sent.
abbrev pub Anything : {T : Types} {A : Type 0} → A → List (Write T) → Type 0
Anything {T} {A} a ws = Sends {T = T} {A = A} (λ w. Unit) a ws

abbrev pub Quiet : {T : Types} {A : Type 0} → A → List (Write T) → Type 0
Quiet a ws = ws ≡ []

-- The answer of the client as the value that `attempt` hands on.
abbrev pub lifted : {E A : Type 0} → Result E A → Result (Error E) A
lifted (ok a) = ok a
lifted (err e) = err (api e)

module _ {T : Types} {K : Env T} where
  pub Does-bind :
      {A B : Type 0} {m : Action K A} {f : A → Action K B} (W : A → List (Write T) → Type 0)
      (V : A → B → List (Write T) → Type 0) (U : B → List (Write T) → Type 0)
      → Does m W
      → ((a : A) (ws : List (Write T)) → W a ws → Does (f a) (V a))
      → ((a : A) (b : B) (ws vs : List (Write T)) → W a ws → V a b vs → U b (ws ++ vs))
      → Does (m >>= f) U
  unfolding ◌>>=◌
  Does-bind {A} {B} {m} {f} W V U first second both = record {
    at = λ s.
        let (a, s1, ws, ran, eq, w) = first.at s in
        let (b, s2, vs, ran', eq', v) = (second a ws w).at s1 in
        (
          b,
          s2,
          ws ++ vs,
          ap (continue f) ran ∙ ran',
          eq' ∙ (ap (λ xs. xs ++ vs) eq ∙ append_assoc s.sent ws vs),
          both a b ws vs w v,
        );
  }

  -- The rule where every write is of a kind.
  pub Does-then :
      {A B : Type 0} {m : Action K A} {f : A → Action K B} {Q : Write T → Type 0}
      → Does m (λ a ws. All Q ws)
      → ((a : A) → Does (f a) (λ b ws. All Q ws))
      → Does (m >>= f) (λ b ws. All Q ws)
  Does-then {Q} first second =
      Does-bind (Sends Q) (λ a. Sends Q) (Sends Q) first (λ a ws w. second a)
        (λ a b ws vs w v. All-append Q ws vs w v)

  pub Does-pure :
      {A : Type 0} (a : A) (W : A → List (Write T) → Type 0) → W a [] → Does (pure {K = K} a) W
  unfolding pure
  Does-pure a W w = record { at = λ s. (a, s, [], refl, sym (append-nil s.sent), w) }

  pub Does-emit : (g : K.Registry → K.Registry) → Does (emit {K = K} g) Quiet
  unfolding emit
  Does-emit g = record {
    at = λ s. (tt, record s { registry = g s.registry }, [], refl, sym (append-nil s.sent), refl);
  }

  pub Does-clock : Does (clock {K = K}) Quiet
  unfolding clock
  Does-clock = record {
    at = λ s. (
      (K.now s.world).0,
      record s { world = (K.now s.world).1 },
      [],
      refl,
      sym (append-nil s.sent),
      refl,
    );
  }

  pub Does-lift :
      {A : Type 0} (r : Result K.ApiError A) (a : A)
      → r ≡ ok a
      → Does (lift {K = K} r) (λ b ws. (b ≡ a) × (ws ≡ []))
  unfolding lift
  Does-lift r a e = record {
    at = λ s. (a, s, [], ap (λ x. answer {K = K} x s) e, sym (append-nil s.sent), (refl, refl));
  }

  pub Does-read :
      {A : Type 0} (f : K.World → Result K.ApiError A × K.World) (R : A → Type 0)
      → ((w : K.World) → (a : A) × ((f w).0 ≡ ok a) × R a)
      → Does (read {K = K} f) (λ a ws. R a × (ws ≡ []))
  unfolding read
  Does-read f R answers = record {
    at = λ s.
        let (a, e, r) = answers s.world in
        let s' : State K = record s { world = (f s.world).1 } in
        (a, s', [], ap (λ x. answer {K = K} x s') e, sym (append-nil s.sent), (r, refl));
  }

  pub Does-attempt-read :
      {A : Type 0} (f : K.World → Result K.ApiError A × K.World)
      (P : Result (Error K.ApiError) A → Type 0)
      → ((w : K.World) → P (lifted (f w).0))
      → Does (attempt (read {K = K} f)) (λ r ws. P r × (ws ≡ []))
  unfolding attempt read
  Does-attempt-read {A} f P answers = record {
    at = λ s.
        let s' : State K = record s { world = (f s.world).1 } in
        (
          lifted (f s.world).0,
          s',
          [],
          split (f s.world).0 s',
          sym (append-nil s.sent),
          (answers s.world, refl),
        );
  }
    where
      split :
          (r : Result K.ApiError A) (s' : State K)
          → ◌≡◌ {A = Outcome K (Result (Error K.ApiError) A)}
              (let (r', s1) = answer {K = K} r s' in (ok r', s1))
              (ok (lifted r), s')
      split (ok a) s' = refl
      split (err e) s' = refl

  pub Does-send :
      (w : Write T)
      → ((world : K.World) → (K.submit w world).0 ≡ ok tt)
      → Does (send {K = K} w) (λ u ws. ws ≡ w ∷ [])
  unfolding send
  Does-send w accepted = record {
    at = λ s.
        let s' : State K = record s { world = (K.submit w s.world).1; sent = s.sent ++ w ∷ [] } in
        (tt, s', w ∷ [], ap (λ x. answer {K = K} x s') (accepted s.world), refl, refl);
  }

  pub Does-send_status :
      (c : Redkey T)
      → ((world : K.World) → (d : Redkey T) × ((K.submit_status c world).0 ≡ ok d))
      → Does (send_status {K = K} c) (λ d ws. ws ≡ update_status c ∷ [])
  unfolding send_status
  Does-send_status c accepted = record {
    at = λ s.
        let (d, e) = accepted s.world in
        let s' : State K = record s {
          world = (K.submit_status c s.world).1;
          sent = s.sent ++ update_status c ∷ [];
        } in
        (d, s', update_status c ∷ [], ap (λ x. answer {K = K} x s') e, refl, refl);
  }

  pub Does-attempt :
      {A : Type 0} (m : Action K A) (W : A → List (Write T) → Type 0)
      → Does m W
      → Does (attempt m) (λ r ws. (a : A) × (r ≡ ok a) × W a ws)
  unfolding attempt
  Does-attempt m W d = record {
    at = λ s.
        let (a, s', ws, ran, eq, w) = d.at s in
        (ok a, s', ws, ap (λ o. let (r, s1) = o in (ok r, s1)) ran, eq, (a, refl, w));
  }

  pub Does-when :
      (b : Bool) (m : Action K (Unit {0})) (W : Unit {0} → List (Write T) → Type 0)
      → (b ≡ true → Does m W)
      → (b ≡ false → W tt [])
      → Does (when b m) W
  unfolding when
  Does-when true m W d w = record { at = (d refl).at }
  Does-when false m W d w = record { at = λ s. (tt, s, [], refl, sym (append-nil s.sent), w refl) }

  pub Does-if :
      {A : Type 0} (b : Bool) (m n : Action K A) (W : A → List (Write T) → Type 0)
      → (b ≡ true → Does m W)
      → (b ≡ false → Does n W)
      → Does (if b then m else n) W
  Does-if true m n W d e = d refl
  Does-if false m n W d e = e refl

  pub Does-wrap_error :
      {A : Type 0} (text : String) (m : Action K A) (W : A → List (Write T) → Type 0)
      → Does m W
      → Does (wrap_error text m) W
  unfolding wrap_error
  Does-wrap_error text m W d = record {
    at = λ s.
        let (a, s', ws, ran, eq, w) = d.at s in
        (a, s', ws, ap (wrap_outcome {K = K} text) ran, eq, w);
  }

  -- What succeeds is run once.
  pub Does-retry :
      {A : Type 0} (m : Action K A) (W : A → List (Write T) → Type 0)
      → RetryLaw K.kube
      → Does m W
      → Does (retry_on_conflict m) W
  unfolding retry_on_conflict
  Does-retry {A} m W law d = record {
    at = λ s.
        let (a, s', ws, ran, eq, w) = d.at s in
        (a, s', ws, once s a s' _ (law.retried (conflict K) m.run s) ran, eq, w);
  }
    where
      once :
          (s : State K) (a : A) (s' : State K) (o : Outcome K A)
          → Retried (conflict K) m.run s o
          → m.run s ≡ (ok a, s')
          → o ≡ (ok a, s')
      once s a s' o (last e) ran = sym e ∙ ran
      once s a s' o (again e s1 failed c rest) ran = absurd (cc)

  pub Does-weaken :
      {A : Type 0} {m : Action K A} (W V : A → List (Write T) → Type 0)
      → ((a : A) (ws : List (Write T)) → W a ws → V a ws)
      → Does m W
      → Does m V
  Does-weaken W V weaken d = record {
    at = λ s. let (a, s', ws, ran, eq, w) = d.at s in (a, s', ws, ran, eq, weaken a ws w);
  }

  -- What is known of the writes after a success holds of an action that is sure to succeed.
  pub Does-Trace :
      {A : Type 0} {m : Action K A} (W : A → List (Write T) → Type 0)
      → Does m Anything
      → Trace m W
      → Does m W
  Does-Trace W d t = record {
    at = λ s.
        let (a, s', ws, ran, eq, _) = d.at s in
        let (vs, eq', w) = t.at s a s' ran in (a, s', vs, ran, eq', w);
  }
