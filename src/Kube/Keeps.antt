-- ===== src/Kube/Keeps.antt =====
-- Invariants of actions: one rule for each way to build an action.
use redkey_operator.Common.{String, Bool, true, false, ◌≡◌, refl, if◌then◌else◌}
use redkey_operator.Api.Types.{Types}
use redkey_operator.Kube.Client.{Result, Error, ok, err}
use redkey_operator.Kube.Laws.{Retried, last, again, RetryLaw}
use redkey_operator.Kube.Action.{
  Env, State, Outcome, Action, continue, answer, wrap_outcome, pure, fail, attempt, when, lift,
  retry_on_conflict, wrap_error, ◌>>=◌, conflict,
}

-- What is known of a result: nothing if it is an error.
abbrev pub Returns : {E A : Type 0} → (A → Type 0) → Result E A → Type 0
Returns R (ok a) = R a
Returns R (err e) = Unit

-- The outcome of an action that keeps `I` and whose result satisfies `R`.
abbrev pub Kept :
    {T : Types} {K : Env T} {A : Type 0} → (State K → Type 0) → (A → Type 0) → Outcome K A → Type 0
Kept I R o = I o.1 × Returns R o.0

-- `m` keeps `I`, whether it returns or fails, and what it returns satisfies `R`.
pub record Keeps {T : Types} {K : Env T} {A : Type 0} (I : State K → Type 0) (m : Action K A)
    (R : A → Type 0) : Type 0 where
  pub at : (s : State K) → I s → Kept I R (m.run s)

-- Nothing is claimed of a result.
abbrev pub Any : {A : Type 0} → A → Type 0
Any a = Unit

pub Returns-Any : {E A : Type 0} (r : Result E A) → Returns {E = E} {A = A} Any r
Returns-Any (ok a) = tt
Returns-Any (err e) = tt

module _ {T : Types} {K : Env T} {A : Type 0} (I : State K → Type 0) (R : A → Type 0) where
  pub Kept-answer :
      (r : Result K.ApiError A) (s : State K) → I s → Returns R r → Kept I R (answer r s)
  Kept-answer (ok a) s h p = (h, p)
  Kept-answer (err e) s h p = (h, tt)

  Kept-wrap : (text : String) (o : Outcome K A) → Kept I R o → Kept I R (wrap_outcome text o)
  Kept-wrap text (ok a, s) h = h
  Kept-wrap text (err e, s) h = h

module _ {T : Types} {K : Env T} {A : Type 0} {I : State K → Type 0} {R : A → Type 0} where
  pub Keeps-pure : (a : A) → R a → Keeps I (pure a) R
  unfolding pure
  Keeps-pure a r = record { at = λ s h. (h, r) }

  pub Keeps-fail : (e : Error K.ApiError) → Keeps I (fail {A = A} e) R
  unfolding fail
  Keeps-fail e = record { at = λ s h. (h, tt) }

  pub Keeps-lift : (r : Result K.ApiError A) → Returns R r → Keeps I (lift r) R
  unfolding lift
  Keeps-lift r p = record { at = λ s h. Kept-answer I R r s h p }

  pub Keeps-if :
      (b : Bool) (m n : Action K A)
      → (b ≡ true → Keeps I m R)
      → (b ≡ false → Keeps I n R)
      → Keeps I (if b then m else n) R
  Keeps-if true m n km kn = km refl
  Keeps-if false m n km kn = kn refl

  pub Keeps-wrap_error :
      (text : String) (m : Action K A) → Keeps I m R → Keeps I (wrap_error text m) R
  unfolding wrap_error
  Keeps-wrap_error text m k = record { at = λ s h. Kept-wrap I R text (m.run s) (k.at s h) }

  pub Keeps-attempt : (m : Action K A) → Keeps I m R → Keeps I (attempt m) (λ r. Returns R r)
  unfolding attempt
  Keeps-attempt m k = record { at = k.at }

  Keeps-Retried :
      (m : Action K A)
      → Keeps I m R
      → {s : State K} {o : Outcome K A} → Retried (conflict K) m.run s o
      → I s
      → Kept I R o
  Keeps-Retried m k {s} (last e) h = rw e at (k.at s h)
  Keeps-Retried m k {s} (again e s' eq c rest) h = Keeps-Retried m k rest (rw eq at (k.at s h)).0

  pub Keeps-retry :
      RetryLaw K.kube → (m : Action K A) → Keeps I m R → Keeps I (retry_on_conflict m) R
  unfolding retry_on_conflict
  Keeps-retry law m k = record {
    at = λ s h. Keeps-Retried m k (law.retried (conflict K) m.run s) h;
  }

module _ {T : Types} {K : Env T} {A B : Type 0} {I : State K → Type 0} {R : A → Type 0}
    {Q : B → Type 0} where
  Kept-continue :
      (f : A → Action K B) (o : Outcome K A)
      → Kept I R o
      → ((a : A) → R a → Keeps I (f a) Q)
      → Kept I Q (continue f o)
  Kept-continue f (ok a, s) h kf = (kf a h.1).at s h.0
  Kept-continue f (err e, s) h kf = h

  pub Keeps-bind :
      (m : Action K A) (f : A → Action K B)
      → Keeps I m R
      → ((a : A) → R a → Keeps I (f a) Q)
      → Keeps I (m >>= f) Q
  unfolding ◌>>=◌
  Keeps-bind m f km kf = record { at = λ s h. Kept-continue f (m.run s) (km.at s h) kf }

module _ {T : Types} {K : Env T} {I : State K → Type 0} where
  pub Keeps-when :
      (b : Bool) (m : Action K (Unit {0})) → (b ≡ true → Keeps I m Any) → Keeps I (when b m) Any
  unfolding when
  Keeps-when true m k = record { at = (k refl).at }
  Keeps-when false m k = record { at = λ s h. (h, tt) }

module _ {T : Types} {K : Env T} {A B : Type 0} {I : State K → Type 0} {Q : B → Type 0} where
  -- The rule for a result of which nothing is claimed.
  pub Keeps-then :
      (m : Action K A) (f : A → Action K B)
      → Keeps I m Any
      → ((a : A) → Keeps I (f a) Q)
      → Keeps I (m >>= f) Q
  Keeps-then m f km kf = Keeps-bind m f km (λ a _. kf a)

module _ {T : Types} {K : Env T} {A : Type 0} {I : State K → Type 0} where
  pub Keeps-attempt-Any : (m : Action K A) → Keeps I m Any → Keeps I (attempt m) Any
  unfolding attempt
  Keeps-attempt-Any m k = record { at = λ s h. ((k.at s h).0, tt) }
