-- ===== src/Kube/Action.antt =====
-- The operator's process against its environment. The state holds the world, the metrics, the two
-- in-memory trackers of metrics.go and the list of all writes that were sent, which nothing reads.
use redkey_operator.Common.{String, Bool, true, false, Option, List, [], ◌∷◌, ◌++◌, ◌==◌, ◌&&◌}
use redkey_operator.Api.Types.{Types, Time}
use redkey_operator.Api.Meta.{NamespacedName}
use redkey_operator.Api.Redkey.{Redkey}
use redkey_operator.Kube.Client.{Kube, Result, ok, err, Error, api, wrapped, Write, update_status}
use redkey_operator.Kube.Collectors.{Collectors}

-- metrics.go: activeOperation
pub record ActiveOperation : Type 0 where
  pub operation : String
  pub started_at : Time

-- The equality of two keys of a Go map.
abbrev pub same_key : NamespacedName → NamespacedName → Bool
same_key a b = a.namespace == b.namespace && a.name == b.name

-- What Reconcile needs: the client and the collectors.
pub record Env (T : Types) : Type 1 where
  pub kube : Kube T
  pub open kube use *
  pub collectors : Collectors
  pub open collectors use *

pub record State {T : Types} (K : Env T) : Type 0 where
  pub world : K.World
  pub registry : K.Registry
  -- opTracker.active and readyTracker.lastPhase, maps of metrics.go
  pub active : NamespacedName → Option ActiveOperation
  pub last_phase : NamespacedName → Option String
  pub sent : List (Write T)

-- What an action returns, and the state that it leaves.
abbrev pub Outcome : {T : Types} → Env T → Type 0 → Type 0
Outcome K A = Result (Error K.ApiError) A × State K

pub record Action {T : Types} (K : Env T) (A : Type 0) : Type 0 where
  pub run : State K → Outcome K A

-- errors.IsNotFound, errors.IsAlreadyExists and errors.IsConflict look below what wraps an error.
abbrev pub cause : {E : Type 0} → Error E → E
cause (api e) = e
cause (wrapped _ e) = cause e

module _ {T : Types} (K : Env T) where
  abbrev pub not_found : Error K.ApiError → Bool
  not_found e = K.is_not_found (cause e)

  abbrev pub already_exists : Error K.ApiError → Bool
  already_exists e = K.is_already_exists (cause e)

  abbrev pub conflict : Error K.ApiError → Bool
  conflict e = K.is_conflict (cause e)

-- `x, err := …; if err != nil { return err }`, after the first call.
abbrev pub continue :
    {T : Types} {K : Env T} {A B : Type 0} → (A → Action K B) → Outcome K A → Outcome K B
continue f (ok a, s) = (f a).run s
continue f (err e, s) = (err e, s)

-- The answer of a helper package or of the client, in a state.
abbrev pub answer :
    {T : Types} {K : Env T} {A : Type 0} → Result K.ApiError A → State K → Outcome K A
answer (ok a) s = (ok a, s)
answer (err e) s = (err (api e), s)

abbrev pub wrap_outcome : {T : Types} {K : Env T} {A : Type 0} → String → Outcome K A → Outcome K A
wrap_outcome text (ok a, s) = (ok a, s)
wrap_outcome text (err e, s) = (err (wrapped text e), s)

module _ {T : Types} {K : Env T} where
  unfoldable pub pure : {A : Type 0} → A → Action K A
  pure a = record { run = λ s. (ok a, s) }

  unfoldable pub fail : {A : Type 0} → Error K.ApiError → Action K A
  fail e = record { run = λ s. (err e, s) }

  -- The result of a call as a value, for code that looks at the error.
  unfoldable pub attempt : {A : Type 0} → Action K A → Action K (Result (Error K.ApiError) A)
  attempt m = record { run = λ s. let (r, s') = m.run s in (ok r, s') }

  unfoldable pub when : Bool → Action K (Unit {0}) → Action K (Unit {0})
  when b m = record { run = λ s. elim b [ true ↦ m.run s | false ↦ (ok tt, s) ] }

  -- A pure call of a helper package.
  unfoldable pub lift : {A : Type 0} → Result K.ApiError A → Action K A
  lift r = record { run = answer {K = K} r }

  -- A read through the client.
  unfoldable pub read : {A : Type 0} → (K.World → Result K.ApiError A × K.World) → Action K A
  read f = record { run = λ s. let (r, w) = f s.world in answer r (record s { world = w }) }

  unfoldable pub clock : Action K Time
  clock = record { run = λ s. let (t, w) = K.now s.world in (ok t, record s { world = w }) }

  -- A write through the client.
  unfoldable pub send : Write T → Action K (Unit {0})
  send r = record {
    run = λ s.
        let (reply, w) = K.submit r s.world in
        answer reply (record s { world = w; sent = s.sent ++ r ∷ [] });
  }

  unfoldable pub send_status : Redkey T → Action K (Redkey T)
  send_status c = record {
    run = λ s.
        let (reply, w) = K.submit_status c s.world in
        answer reply (record s { world = w; sent = s.sent ++ update_status c ∷ [] });
  }

  -- A call on a collector.
  unfoldable pub emit : (K.Registry → K.Registry) → Action K (Unit {0})
  emit f = record { run = λ s. (ok tt, record s { registry = f s.registry }) }

  unfoldable pub retry_on_conflict : {A : Type 0} → Action K A → Action K A
  retry_on_conflict {A} m = record {
    run =
        Kube.retry_on_conflict K.kube {S = State K} {A = A} {E = Error K.ApiError} (conflict K)
          m.run;
  }

  -- `fmt.Errorf("<text>: %w", err)` round a failing call.
  unfoldable pub wrap_error : {A : Type 0} → String → Action K A → Action K A
  wrap_error text m = record { run = λ s. wrap_outcome text (m.run s) }

  infixl 5 ◌>>=◌ ◌>>◌
  -- To unfold this is to unfold every action above.
  unfoldable pub ◌>>=◌ : {A B : Type 0} → Action K A → (A → Action K B) → Action K B
  unfolding pure fail attempt when lift read clock send send_status emit retry_on_conflict
      wrap_error
  m >>= f = record { run = λ s. continue f (m.run s) }

  abbrev pub ◌>>◌ : {A B : Type 0} → Action K A → Action K B → Action K B
  m >> k = m >>= λ _. k
