-- ===== src/Kube/Runs.antt =====
-- Actions on a server of which something is known: total correctness from one view of the world, one
-- rule for each way to build an action.
pub mod Still
pub mod Sends
use mathlib.Core.List.{append_assoc, append-nil}
use redkey_operator.Common.{
  String, Bool, true, false, List, [], ◌∷◌, ◌++◌, ◌≡◌, refl, sym, ap, ◌∙◌, if◌then◌else◌,
}
use redkey_operator.Api.Types.{Types, Time}
use redkey_operator.Api.Redkey.{Redkey}
use redkey_operator.Kube.Client.{Result, ok, err, Error, api, Write, update_status}
use redkey_operator.Kube.Laws.{Retried, last, again, RetryLaw}
use redkey_operator.Kube.Does.{lifted}
use redkey_operator.Kube.Action.{
  Env, State, Outcome, Action, continue, answer, pure, attempt, when, lift, read, clock, send,
  send_status, emit, retry_on_conflict, ◌>>=◌, conflict,
}

module _ {T : Types} {K : Env T} {V : Type 0} (view : K.World → V) where
  -- From every state whose world looks like `v`, `m` succeeds, and its result, what the world looks
  -- like then and the writes that were added satisfy `Q`.
  pub record Runs {A : Type 0} (m : Action K A) (v : V) (Q : A → V → List (Write T) → Type 0)
      : Type 0 where
    pub at :
        (s : State K)
        → view s.world ≡ v
        → (a : A) × (s' : State K) × (ws : List (Write T)) × (m.run s ≡ (ok a, s'))
          × (s'.sent ≡ s.sent ++ ws)
          × Q a (view s'.world) ws

module _ {T : Types} {K : Env T} {V : Type 0} {view : K.World → V} where
  pub Runs-bind :
      {A B : Type 0} {m : Action K A} {f : A → Action K B} {v : V}
      (Q : A → V → List (Write T) → Type 0) (R : B → V → List (Write T) → Type 0)
      → Runs view m v Q
      → ((a : A) (v' : V) (ws : List (Write T))
          → Q a v' ws
          → Runs view (f a) v' (λ b v'' vs. R b v'' (ws ++ vs)))
      → Runs view (m >>= f) v R
  unfolding ◌>>=◌
  Runs-bind {A} {B} {m} {f} Q R first second = record {
    at = λ s e.
        let (a, s1, ws, ran, eq, q) = first.at s e in
        let (b, s2, vs, ran', eq', r) = (second a (view s1.world) ws q).at s1 refl in
        (
          b,
          s2,
          ws ++ vs,
          ap (continue f) ran ∙ ran',
          eq' ∙ (ap (λ xs. xs ++ vs) eq ∙ append_assoc s.sent ws vs),
          r,
        );
  }

  pub Runs-weaken :
      {A : Type 0} {m : Action K A} {v : V} (Q R : A → V → List (Write T) → Type 0)
      → ((a : A) (v' : V) (ws : List (Write T)) → Q a v' ws → R a v' ws)
      → Runs view m v Q
      → Runs view m v R
  Runs-weaken Q R weaken r = record {
    at = λ s e. let (a, s', ws, ran, eq, q) = r.at s e in (a, s', ws, ran, eq, weaken a _ ws q);
  }

  -- After an action that sends nothing.
  pub Runs-quiet :
      {A B : Type 0} {m : Action K A} (f : A → Action K B) (a : A) (v : V)
      (Q : B → V → List (Write T) → Type 0)
      → Runs view m v (λ b v' ws. (b ≡ a) × (v' ≡ v) × (ws ≡ []))
      → Runs view (f a) v Q
      → Runs view (m >>= f) v Q
  Runs-quiet f a v Q first second = Runs-bind _ Q first (λ b v' ws h. rw (h.0, h.1, h.2) second)

  pub Runs-pure :
      {A : Type 0} (a : A) {v : V} (Q : A → V → List (Write T) → Type 0)
      → Q a v []
      → Runs view (pure {K = K} a) v Q
  unfolding pure
  Runs-pure a Q q = record { at = λ s e. (a, s, [], refl, sym (append-nil s.sent), rw e q) }

  pub Runs-lift :
      {A : Type 0} (r : Result K.ApiError A) (a : A) {v : V}
      → r ≡ ok a
      → Runs view (lift {K = K} r) v (λ b v' ws. (b ≡ a) × (v' ≡ v) × (ws ≡ []))
  unfolding lift
  Runs-lift r a e' = record {
    at = λ s e.
        (a, s, [], ap (λ x. answer {K = K} x s) e', sym (append-nil s.sent), (refl, e, refl));
  }

  pub Runs-emit :
      (g : K.Registry → K.Registry) {v : V}
      → Runs view (emit {K = K} g) v (λ u v' ws. (v' ≡ v) × (ws ≡ []))
  unfolding emit
  Runs-emit g = record {
    at = λ s e.
        (tt, record s { registry = g s.registry }, [], refl, sym (append-nil s.sent), (e, refl));
  }

  pub Runs-clock :
      {v : V}
      → ((w : K.World) → view (K.now w).1 ≡ view w)
      → Runs view (clock {K = K}) v (λ t v' ws. (v' ≡ v) × (ws ≡ []))
  unfolding clock
  Runs-clock calm = record {
    at = λ s e. (
      (K.now s.world).0,
      record s { world = (K.now s.world).1 },
      [],
      refl,
      sym (append-nil s.sent),
      (calm s.world ∙ e, refl),
    );
  }

  pub Runs-read :
      {A : Type 0} (f : K.World → Result K.ApiError A × K.World) {v : V} (R : A → Type 0)
      → ((w : K.World) → view w ≡ v → ((a : A) × ((f w).0 ≡ ok a) × R a) × (view (f w).1 ≡ v))
      → Runs view (read {K = K} f) v (λ a v' ws. R a × (v' ≡ v) × (ws ≡ []))
  unfolding read
  Runs-read f R answers = record {
    at = λ s e.
        let ((a, found, r), same) = answers s.world e in
        let s' : State K = record s { world = (f s.world).1 } in
        (a, s', [], ap (λ x. answer {K = K} x s') found, sym (append-nil s.sent), (r, same, refl));
  }

  pub Runs-attempt-read :
      {A : Type 0} (f : K.World → Result K.ApiError A × K.World) {v : V}
      (P : Result (Error K.ApiError) A → Type 0)
      → ((w : K.World) → view w ≡ v → P (lifted (f w).0) × (view (f w).1 ≡ v))
      → Runs view (attempt (read {K = K} f)) v (λ r v' ws. P r × (v' ≡ v) × (ws ≡ []))
  unfolding attempt read
  Runs-attempt-read {A} f P answers = record {
    at = λ s e.
        let s' : State K = record s { world = (f s.world).1 } in
        (
          lifted (f s.world).0,
          s',
          [],
          split (f s.world).0 s',
          sym (append-nil s.sent),
          ((answers s.world e).0, (answers s.world e).1, refl),
        );
  }
    where
      split :
          (r : Result K.ApiError A) (s' : State K)
          → ◌≡◌ {A = Outcome K (Result (Error K.ApiError) A)}
              (let (r', s1) = answer {K = K} r s' in (ok r', s1))
              (ok (lifted r), s')
      split (ok a) s' = refl
      split (err e) s' = refl

  pub Runs-attempt :
      {A : Type 0} (m : Action K A) {v : V} (Q : A → V → List (Write T) → Type 0)
      → Runs view m v Q
      → Runs view (attempt m) v (λ r v' ws. (a : A) × (r ≡ ok a) × Q a v' ws)
  unfolding attempt
  Runs-attempt m Q r = record {
    at = λ s e.
        let (a, s', ws, ran, eq, q) = r.at s e in
        (ok a, s', ws, ap (λ o. let (r, s1) = o in (ok r, s1)) ran, eq, (a, refl, q));
  }

  pub Runs-when :
      (b : Bool) (m : Action K (Unit {0})) {v : V} (Q : Unit {0} → V → List (Write T) → Type 0)
      → (b ≡ true → Runs view m v Q)
      → (b ≡ false → Q tt v [])
      → Runs view (when b m) v Q
  unfolding when
  Runs-when true m Q r q = record { at = (r refl).at }
  Runs-when false m Q r q = record {
    at = λ s e. (tt, s, [], refl, sym (append-nil s.sent), rw e (q refl));
  }

  pub Runs-if :
      {A : Type 0} (b : Bool) (m n : Action K A) {v : V} (Q : A → V → List (Write T) → Type 0)
      → (b ≡ true → Runs view m v Q)
      → (b ≡ false → Runs view n v Q)
      → Runs view (if b then m else n) v Q
  Runs-if true m n Q f g = f refl
  Runs-if false m n Q f g = g refl

  -- What succeeds is run once.
  pub Runs-retry :
      {A : Type 0} (m : Action K A) {v : V} (Q : A → V → List (Write T) → Type 0)
      → RetryLaw K.kube
      → Runs view m v Q
      → Runs view (retry_on_conflict m) v Q
  unfolding retry_on_conflict
  Runs-retry {A} m Q law r = record {
    at = λ s e.
        let (a, s', ws, ran, eq, q) = r.at s e in
        (a, s', ws, once s a s' _ (law.retried (conflict K) m.run s) ran, eq, q);
  }
    where
      once :
          (s : State K) (a : A) (s' : State K) (o : Outcome K A)
          → Retried (conflict K) m.run s o
          → m.run s ≡ (ok a, s')
          → o ≡ (ok a, s')
      once s a s' o (last e) ran = sym e ∙ ran
      once s a s' o (again e s1 failed c rest) ran = absurd (cc)
