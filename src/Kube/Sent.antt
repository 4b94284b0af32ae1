-- ===== src/Kube/Sent.antt =====
-- What the operator sends: an invariant of the list of all writes, action by action.
use redkey_operator.Common.{[], ◌∷◌, All, All-append}
use redkey_operator.Api.Types.{Types}
use redkey_operator.Api.Redkey.{Redkey}
use redkey_operator.Kube.Client.{Result, Write, update_status}
use redkey_operator.Kube.Action.{Env, State, answer, lift, read, clock, send, send_status, emit}
use redkey_operator.Kube.Keeps.{
  Keeps, Kept, Any, Returns, Returns-Any, Kept-answer, Keeps-lift, Keeps-pure, Keeps-fail, Keeps-if,
  Keeps-attempt-Any, Keeps-when, Keeps-then, Keeps-wrap_error,
}

-- Every write so far satisfies `Q`.
pub record Sent {T : Types} {K : Env T} (Q : Write T → Type 0) (s : State K) : Type 0 where
  pub all : All Q s.sent

module _ {T : Types} {K : Env T} {Q : Write T → Type 0} where
  Sent-answer :
      {A : Type 0} (r : Result K.ApiError A) (s : State K)
      → Sent Q s
      → Kept {A = A} (Sent Q) Any (answer r s)
  Sent-answer r s h = Kept-answer (Sent Q) Any r s h (Returns-Any r)

  pub Keeps-lift-Any : {A : Type 0} (r : Result K.ApiError A) → Keeps (Sent Q) (lift {K = K} r) Any
  Keeps-lift-Any r = Keeps-lift r (Returns-Any r)

  pub Keeps-read :
      {A : Type 0} (f : K.World → Result K.ApiError A × K.World)
      → Keeps (Sent Q) (read {K = K} f) Any
  unfolding read
  Keeps-read f = record {
    at = λ s h. let (r, w) = f s.world in Sent-answer r _ (record { all = h.all });
  }

  -- The rule for a read of which something is claimed.
  pub Keeps-read_with :
      {A : Type 0} {R : A → Type 0} (f : K.World → Result K.ApiError A × K.World)
      → ((w : K.World) → Returns R (f w).0)
      → Keeps (Sent Q) (read {K = K} f) R
  unfolding read
  Keeps-read_with {R} f p = record {
    at = λ s h.
        let (r, w) = f s.world in Kept-answer (Sent Q) R r _ (record { all = h.all }) (p s.world);
  }

  pub Keeps-clock : Keeps (Sent Q) (clock {K = K}) Any
  unfolding clock
  Keeps-clock = record { at = λ s h. (record { all = h.all }, tt) }

  pub Keeps-emit : (f : K.Registry → K.Registry) → Keeps (Sent Q) (emit {K = K} f) Any
  unfolding emit
  Keeps-emit f = record { at = λ s h. (record { all = h.all }, tt) }

  pub Keeps-send : (w : Write T) → Q w → Keeps (Sent Q) (send {K = K} w) Any
  unfolding send
  Keeps-send w q = record {
    at = λ s h.
        let (r, world) = K.submit w s.world in
        Sent-answer r _ (record { all = All-append Q s.sent (w ∷ []) h.all (q, tt) });
  }

  pub Keeps-send_status :
      (c : Redkey T) → Q (update_status c) → Keeps (Sent Q) (send_status {K = K} c) Any
  unfolding send_status
  Keeps-send_status c q = record {
    at = λ s h.
        let (r, world) = K.submit_status c s.world in
        Sent-answer r _ (record { all = All-append Q s.sent (update_status c ∷ []) h.all (q, tt) });
  }

pub ruleset sent_rules = (
  Keeps-pure, Keeps-fail, Keeps-if, Keeps-attempt-Any, Keeps-when, Keeps-then, Keeps-wrap_error,
  Keeps-lift-Any, Keeps-read, Keeps-clock, Keeps-emit, Keeps-send, Keeps-send_status,
)
