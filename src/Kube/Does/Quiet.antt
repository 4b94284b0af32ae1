-- ===== src/Kube/Does/Quiet.antt =====
-- The rules for actions that send nothing, and for what stands before and after them.
use mathlib.Core.List.{append-nil}
use redkey_operator.Common.{List, [], ◌≡◌, refl}
use redkey_operator.Api.Types.{Types}
use redkey_operator.Kube.Client.{Write}
use redkey_operator.Kube.Action.{Env, Action, ◌>>=◌}
use redkey_operator.Kube.Does.{Does, Quiet, Does-bind}

module _ {T : Types} {K : Env T} where
  pub Does-Quiet :
      {A B : Type 0} {m : Action K A} {f : A → Action K B}
      → Does m Quiet
      → ((a : A) → Does (f a) Quiet)
      → Does (m >>= f) Quiet
  Does-Quiet first second =
      Does-bind Quiet (λ a. Quiet) Quiet first (λ a ws w. second a)
        (λ a b ws vs w v. rw (w, v) refl)

  -- After an action that sends nothing.
  pub after_quiet :
      {A B : Type 0} {m : Action K A} {f : A → Action K B} (R : A → Type 0)
      (W : B → List (Write T) → Type 0)
      → Does m (λ a ws. R a × (ws ≡ []))
      → ((a : A) → R a → Does (f a) W)
      → Does (m >>= f) W
  after_quiet R W first second =
      Does-bind _ (λ a. W) W first (λ a ws h. second a h.0) (λ a b ws vs h v. rw (h.1) v)

  -- Before an action that sends nothing.
  pub then_quiet :
      {A B : Type 0} {m : Action K A} {f : A → Action K B} (P : List (Write T) → Type 0)
      → Does m (λ a. P)
      → ((a : A) → Does (f a) Quiet)
      → Does (m >>= f) (λ b. P)
  then_quiet P first second =
      Does-bind (λ a. P) (λ a. Quiet) (λ b. P) first (λ a ws h. second a)
        (λ a b ws vs h e. rw (e, append-nil ws) h)
