-- ===== src/Robin/Ensure/Puts.antt =====
-- redkey_robin.go: the shape of the four ensure functions, an object that is created where it is
-- missing and looked at where it is there, on a server of which something is known.
use redkey_operator.Common.{
  Bool, true, false, Option, none, some, List, [], ◌≡◌, refl, ap, subst, ◌∙◌,
}
use redkey_operator.Api.Types.{Types}
use redkey_operator.Api.Meta.{ObjectMeta}
use redkey_operator.Kube.Client.{Result, Error, ok, err, Write}
use redkey_operator.Kube.Action.{Env, Action, lift, read, attempt, when, send, ◌>>=◌, not_found}
use redkey_operator.Kube.Does.{lifted}
use redkey_operator.Kube.Runs.{
  Runs, Runs-bind, Runs-weaken, Runs-lift, Runs-attempt-read, Runs-when,
}
use redkey_operator.Kube.Runs.Sends.{Runs-send}
use redkey_operator.Kube.Stored.{Answers}
use redkey_operator.Robin.Ensure.{create_or}

-- The lifted answer to a `Get` of what may be there.
abbrev Reply :
    {T : Types} (K : Env T) {A : Type 0} → Option A → Result (Error K.ApiError) A → Type 0
Reply K o (ok a) = o ≡ some a
Reply K o (err e) = (o ≡ none) × (not_found K e ≡ true)

Reply-lifted :
    {T : Types} (K : Env T) {A : Type 0} (o : Option A) (r : Result K.ApiError A)
    → Answers K.kube o r
    → Reply K o (lifted r)
Reply-lifted K (some a) r h = rw h refl
Reply-lifted K none r (e, h, missing) = rw h (refl, missing)

-- The object of one field is right, and the other objects are as they were.
abbrev pub Puts :
    {T : Types} {V A : Type 0} → (A → Type 0) → (A → V) → Unit {0} → V → List (Write T) → Type 0
Puts {A = A} Right put u v' ws = (kept : A) × Right kept × (v' ≡ put kept)

module _ {T : Types} {K : Env T} {V : Type 0} {view : K.World → V} where
  -- An object that is created where it is missing and looked at where it is there.
  pub ensure-Runs :
      {A : Type 0} (owner m m' : ObjectMeta T) (get : K.World → Result K.ApiError A × K.World)
      (of : V → Option A) (v : V) (Q : Unit {0} → V → List (Write T) → Type 0)
      (missing : ObjectMeta T → Action K (Unit {0}))
      (found : ObjectMeta T → A → Action K (Unit {0}))
      → K.set_controller_reference owner m ≡ ok m'
      → ((w : K.World) → Answers K.kube (of (view w)) (get w).0 × (view (get w).1 ≡ view w))
      → (of v ≡ none → Runs view (missing m') v Q)
      → ((a : A) → of v ≡ some a → Runs view (found m' a) v Q)
      → Runs view
          (lift (K.set_controller_reference owner m) >>= λ meta.
            (attempt (read get) >>= λ r. create_or K r (missing meta) (found meta)))
          v
          Q
  ensure-Runs {A} owner m m' get of v Q missing found owned answers create_it correct =
      Runs-bind _ Q (Runs-lift _ m' owned) (λ x v' ws h.
        rw (h.0, h.1, h.2)
          (Runs-bind (λ r v' ws. Reply K (of v) r × (v' ≡ v) × (ws ≡ [])) Q
            (Runs-attempt-read get (Reply K (of v)) (λ w e. (
              subst (λ o. Reply K o (lifted (get w).0)) (ap of e)
                  (Reply-lifted K (of (view w)) (get w).0 (answers w).0),
              (answers w).1 ∙ e,
            )))
            (λ r v' ws h.
              rw (h.1, h.2)
                (elim r
                    as (λ r.
                      Reply K (of v) r → Runs view (create_or K r (missing m') (found m')) v Q) [
                        | ok a ↦ λ e. correct a e
                        | err e ↦ λ h. rw (h.1) (create_it h.0)
                      ]
                  h.0))))

  pub send-Puts :
      {A : Type 0} (w : Write T) (v : V) (Right : A → Type 0) (put : V → A → V)
      → ((world : K.World)
          → view world ≡ v
          → ((K.submit w world).0 ≡ ok tt)
            × ((kept : A) × Right kept × (view (K.submit w world).1 ≡ put (view world) kept)))
      → Runs view (send {K = K} w) v (Puts Right (put v))
  send-Puts {A} w v Right put law =
      Runs-weaken _ (Puts Right (put v)) (λ u v' ws h. h.0)
        (Runs-send w (λ v'. (kept : A) × Right kept × (v' ≡ put v kept))
          (λ world e.
            let (took, (kept, right, eq)) = law world e in
            (took, (kept, right, eq ∙ ap (λ x. put x kept) e))))

  pub when-Puts :
      {A : Type 0} (differs : Bool) (w : Write T) (v : V) (a : A) (Right : A → Type 0)
      (put : V → A → V)
      → (differs ≡ false → Right a)
      → v ≡ put v a
      → ((world : K.World)
          → view world ≡ v
          → ((K.submit w world).0 ≡ ok tt)
            × ((kept : A) × Right kept × (view (K.submit w world).1 ≡ put (view world) kept)))
      → Runs view (when differs (send {K = K} w)) v (Puts Right (put v))
  when-Puts differs w v a Right put right there law =
      Runs-when differs _ (Puts Right (put v)) (λ e. send-Puts w v Right put law)
        (λ e. (a, right e, there))
