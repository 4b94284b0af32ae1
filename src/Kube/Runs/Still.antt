-- ===== src/Kube/Runs/Still.antt =====
-- Actions that succeed, send nothing, and leave the world looking as it was.
use mathlib.Core.List.{append-nil}
use redkey_operator.Common.{Bool, true, false, [], ◌≡◌, refl, sym, ap, ◌∙◌, if◌then◌else◌}
use redkey_operator.Api.Types.{Types}
use redkey_operator.Kube.Client.{ok}
use redkey_operator.Kube.Action.{Env, State, Action, continue, pure, when, clock, emit, ◌>>=◌}
use redkey_operator.Kube.Does.{Does, Quiet}
use redkey_operator.Kube.Runs.{Runs}

module _ {T : Types} {K : Env T} {V : Type 0} (view : K.World → V) where
  pub record Still {A : Type 0} (m : Action K A) : Type 0 where
    pub at :
        (s : State K)
        → (a : A) × (s' : State K) × (m.run s ≡ (ok a, s'))
          × (s'.sent ≡ s.sent)
          × (view s'.world ≡ view s.world)

module _ {T : Types} {K : Env T} {V : Type 0} {view : K.World → V} where
  pub Still-bind :
      {A B : Type 0} {m : Action K A} {f : A → Action K B}
      → Still view m
      → ((a : A) → Still view (f a))
      → Still view (m >>= f)
  unfolding ◌>>=◌
  Still-bind {A} {B} {m} {f} first second = record {
    at = λ s.
        let (a, s1, ran, eq, same) = first.at s in
        let (b, s2, ran', eq', same') = (second a).at s1 in
        (b, s2, ap (continue f) ran ∙ ran', eq' ∙ eq, same' ∙ same);
  }

  pub Still-pure : {A : Type 0} (a : A) → Still view (pure {K = K} a)
  unfolding pure
  Still-pure a = record { at = λ s. (a, s, refl, refl, refl) }

  pub Still-emit : (g : K.Registry → K.Registry) → Still view (emit {K = K} g)
  unfolding emit
  Still-emit g = record { at = λ s. (tt, record s { registry = g s.registry }, refl, refl, refl) }

  pub Still-clock : ((w : K.World) → view (K.now w).1 ≡ view w) → Still view (clock {K = K})
  unfolding clock
  Still-clock calm = record {
    at = λ s. ((K.now s.world).0, record s { world = (K.now s.world).1 }, refl, refl, calm s.world);
  }

  pub Still-when : (b : Bool) (m : Action K (Unit {0})) → Still view m → Still view (when b m)
  unfolding when
  Still-when true m d = record { at = d.at }
  Still-when false m d = record { at = λ s. (tt, s, refl, refl, refl) }

  pub Still-if :
      {A : Type 0} (b : Bool) (m n : Action K A)
      → Still view m
      → Still view n
      → Still view (if b then m else n)
  Still-if true m n d e = d
  Still-if false m n d e = e

  pub Runs-Still :
      {A : Type 0} {m : Action K A} {v : V}
      → Still view m
      → Runs view m v (λ a v' ws. (v' ≡ v) × (ws ≡ []))
  Runs-Still d = record {
    at = λ s e.
        let (a, s', ran, eq, same) = d.at s in
        (a, s', [], ran, eq ∙ sym (append-nil s.sent), (same ∙ e, refl));
  }

  pub Does-Still : {A : Type 0} {m : Action K A} → Still view m → Does m Quiet
  Does-Still d = record {
    at = λ s.
        let (a, s', ran, eq, same) = d.at s in (a, s', [], ran, eq ∙ sym (append-nil s.sent), refl);
  }

pub ruleset still_rules = (Still-bind, Still-pure, Still-when, Still-if, Still-emit, Still-clock)
