-- ===== src/Kube/Willing.antt =====
-- A server that grants every request, and which actions succeed on it.
use redkey_operator.Common.{
  String, Bool, true, List, [], ◌∷◌, ◌≡◌, sym, subst, if◌then◌else◌, All, All-append,
}
use redkey_operator.Api.Types.{Types}
use redkey_operator.Api.Meta.{NamespacedName, ObjectMeta}
use redkey_operator.Api.Redkey.{Redkey}
use redkey_operator.Api.Config.{RedkeyConfig}
use redkey_operator.Kube.Client.{
  Kube, Result, ok, err, Error, Write, create, delete, update_status, of_config, config,
}
use redkey_operator.Kube.Action.{
  Env, Action, pure, attempt, when, lift, read, send, send_status, emit, ◌>>=◌, not_found,
}
use redkey_operator.Kube.Does.{
  Does, Anything, Sends, Quiet, lifted, Does-weaken, Does-pure, Does-emit, Does-lift, Does-read,
  Does-attempt-read, Does-send, Does-send_status, Does-attempt, Does-when, Does-if, Does-bind,
}

-- An object is returned, or the answer is that there is none.
abbrev pub FoundOrMissing : {T : Types} (K : Kube T) {A : Type 0} → Result K.ApiError A → Type 0
FoundOrMissing K (ok a) = Unit
FoundOrMissing K (err e) = K.is_not_found e ≡ true

-- Every read is answered, every write is accepted, and the Redkeys that are asked for exist.
pub record Willing {T : Types} (K : Kube T) : Type 0 where
  pub redkey :
      (key : NamespacedName) (w : K.World) → (c : Redkey T) × ((K.get_redkey key w).0 ≡ ok c)
  pub service_account :
      (key : NamespacedName) (w : K.World) → FoundOrMissing K (K.get_service_account key w).0
  pub role : (key : NamespacedName) (w : K.World) → FoundOrMissing K (K.get_role key w).0
  pub role_binding :
      (key : NamespacedName) (w : K.World) → FoundOrMissing K (K.get_role_binding key w).0
  pub deployment :
      (key : NamespacedName) (w : K.World) → FoundOrMissing K (K.get_deployment key w).0
  pub configs :
      (ns label value : String) (w : K.World)
      → (items : List (RedkeyConfig T)) × ((K.list_configs ns label value w).0 ≡ ok items)
  pub accepts : (r : Write T) (w : K.World) → (K.submit r w).0 ≡ ok tt
  pub accepts_status :
      (c : Redkey T) (w : K.World) → (d : Redkey T) × ((K.submit_status c w).0 ≡ ok d)
  pub owned :
      (owner m : ObjectMeta T) → (m' : ObjectMeta T) × (K.set_controller_reference owner m ≡ ok m')

-- What `attempt` hands on from a read of a willing server.
abbrev pub Settled : {T : Types} (K : Env T) {A : Type 0} → Result (Error K.ApiError) A → Type 0
Settled K (ok a) = Unit
Settled K (err e) = not_found K e ≡ true

Settled-lifted :
    {T : Types} (K : Env T) {A : Type 0} (r : Result K.ApiError A)
    → FoundOrMissing K.kube r
    → Settled K (lifted r)
Settled-lifted K (ok a) h = tt
Settled-lifted K (err e) h = h

-- The writes about configs and statuses are of a kind.
pub record Allows {T : Types} (Q : Write T → Type 0) : Type 0 where
  pub create_config : (c : RedkeyConfig T) → Q (create (of_config c))
  pub delete_config : (key : NamespacedName) → Q (delete config key)
  pub status : (c : Redkey T) → Q (update_status c)

pub everything : {T : Types} → Allows {T = T} (λ w. Unit)
everything = record { create_config = λ c. tt; delete_config = λ key. tt; status = λ c. tt }

every_write : {T : Types} (ws : List (Write T)) → All (λ w. Unit {0}) ws
every_write [] = tt
every_write (w ∷ ws) = (tt, every_write ws)

module _ {T : Types} {K : Env T} where
  pub Does-Anything :
      {A : Type 0} {m : Action K A} (W : A → List (Write T) → Type 0) → Does m W → Does m Anything
  Does-Anything W d = Does-weaken W Anything (λ a ws w. every_write ws) d

  module _ {Q : Write T → Type 0} where
    pub Does-Sends : {A : Type 0} {m : Action K A} → Does m Quiet → Does m (λ a ws. All Q ws)
    Does-Sends d = Does-weaken Quiet (Sends Q) (λ a ws e. rw e tt) d

    -- The rules where every write is of a kind.
    pub after_owned :
        {B : Type 0} (owner m : ObjectMeta T) (g : ObjectMeta T → Action K B)
        → Willing K.kube
        → ((m' : ObjectMeta T) → Does (g m') (λ b ws. All Q ws))
        → Does (lift (K.set_controller_reference owner m) >>= g) (λ b ws. All Q ws)
    after_owned owner m g willing rest =
        let (m', e) = willing.owned owner m in
        Does-bind _ (λ a. Sends Q) (Sends Q) (Does-lift _ m' e) (λ a ws w. rest a)
          (λ a b ws vs w v. rw (w.1) v)

    pub after_found :
        {A B : Type 0} (get : K.World → Result K.ApiError A × K.World)
        (g : Result (Error K.ApiError) A → Action K B)
        → ((w : K.World) → FoundOrMissing K.kube (get w).0)
        → ((r : Result (Error K.ApiError) A) → Settled K r → Does (g r) (λ b ws. All Q ws))
        → Does (attempt (read get) >>= g) (λ b ws. All Q ws)
    after_found get g found rest =
        Does-bind _ (λ a. Sends Q) (Sends Q)
          (Does-attempt-read get (Settled K) (λ w. Settled-lifted K _ (found w)))
          (λ a ws w. rest a w.0) (λ a b ws vs w v. rw (w.1) v)

    pub after_read :
        {A B : Type 0} (get : K.World → Result K.ApiError A × K.World) (g : A → Action K B)
        → ((w : K.World) → (a : A) × ((get w).0 ≡ ok a))
        → ((a : A) → Does (g a) (λ b ws. All Q ws))
        → Does (read get >>= g) (λ b ws. All Q ws)
    after_read get g found rest =
        Does-bind _ (λ a. Sends Q) (Sends Q)
          (Does-read get (λ a. Unit) (λ w. ((found w).0, (found w).1, tt))) (λ a ws w. rest a)
          (λ a b ws vs w v. rw (w.1) v)

    pub send_allowed :
        Willing K.kube → (w : Write T) → Q w → Does (send {K = K} w) (λ u ws. All Q ws)
    send_allowed willing w q =
        Does-weaken _ (Sends Q) (λ u ws e. rw e (q, tt))
          (Does-send w (λ world. willing.accepts w world))

    pub send_status_allowed :
        Willing K.kube
        → (c : Redkey T) → Q (update_status c)
        → Does (send_status {K = K} c) (λ d ws. All Q ws)
    send_status_allowed willing c q =
        Does-weaken _ (Sends Q) (λ d ws e. rw e (q, tt))
          (Does-send_status c (willing.accepts_status c))

    pub attempt_allowed :
        {B : Type 0} (w : Write T) (g : Result (Error K.ApiError) (Unit {0}) → Action K B)
        → Willing K.kube
        → Q w
        → Does (g (ok tt)) (λ b ws. All Q ws)
        → Does (attempt (send w) >>= g) (λ b ws. All Q ws)
    attempt_allowed w g willing q rest =
        Does-bind (λ r ws. (r ≡ ok tt) × All Q ws) (λ r. Sends Q) (Sends Q)
          (Does-weaken _ (λ r ws. (r ≡ ok tt) × All Q ws) (λ r ws h. (h.1, h.2))
            (Does-attempt _ _ (send_allowed willing w q)))
          (λ r ws e. subst (λ x. Does (g x) (Sends Q)) (sym e.0) rest)
          (λ a b ws vs w v. All-append Q ws vs w.1 v)

    pub emit_any : (g : K.Registry → K.Registry) → Does (emit {K = K} g) (λ u ws. All Q ws)
    emit_any g = Does-Sends (Does-emit g)

    pub pure_any : {A : Type 0} (a : A) → Does (pure {K = K} a) (λ b ws. All Q ws)
    pure_any a = Does-pure a (Sends Q) tt

    pub when_any :
        (b : Bool) (m : Action K (Unit {0}))
        → Does m (λ u ws. All Q ws)
        → Does (when b m) (λ u ws. All Q ws)
    when_any b m d = Does-when b m (Sends Q) (λ e. d) (λ e. tt)

    pub if_any :
        {A : Type 0} (b : Bool) (m n : Action K A)
        → Does m (λ a ws. All Q ws)
        → Does n (λ a ws. All Q ws)
        → Does (if b then m else n) (λ a ws. All Q ws)
    if_any b m n d e = Does-if b m n (Sends Q) (λ _. d) (λ _. e)

  pub send_granted : Willing K.kube → (w : Write T) → Does (send {K = K} w) Anything
  send_granted willing w = send_allowed willing w tt

  pub attempt_granted :
      {B : Type 0} (w : Write T) (g : Result (Error K.ApiError) (Unit {0}) → Action K B)
      → Willing K.kube
      → Does (g (ok tt)) Anything
      → Does (attempt (send w) >>= g) Anything
  attempt_granted w g willing rest = attempt_allowed w g willing tt rest
