-- ===== src/Cmd/Start/Starts.antt =====
-- cmd/main.go: when the manager is started.
use redkey_operator.Common.{
  String, Bool, true, false, ◌||◌, Option, none, some, List, [], ◌∷◌, ◌++◌, ◌≡◌, refl, sym, ap, ◌∙◌,
  inl, inr, Bool-cases, arith,
}
use mathlib.Core.List.{append_assoc, append-nil}
use redkey_operator.Cmd.Flags.{Flags}
use redkey_operator.Cmd.Tls.{CertWatcher, webhook_cert_watcher, metrics_cert_watcher}
use redkey_operator.Cmd.Start.{Call, new_cert_watcher, add_to_manager, start_manager, Platform}
use redkey_operator.Cmd.Start.Plan.{watcher_calls, pprof_calls, set_up_calls, run_plan, passes}

abbrev is_start : Call → Bool
is_start start_manager = true
is_start _ = false

-- The manager is started in the course of these calls.
abbrev pub starts : List Call → Bool
starts [] = false
starts (c ∷ cs) = is_start c || starts cs

starts-append :
    (cs ds : List Call) → starts cs ≡ false → starts ds ≡ false → starts (cs ++ ds) ≡ false
starts-append [] ds e f = f
starts-append (c ∷ cs) ds e f = ground (arith, e, starts-append cs ds (ground (arith, e)) f)

-- Calls of which only the last starts the manager: where it is started, all of them were made.
pub run_plan-starts :
    (P : Platform) (cs log : List Call)
    → starts cs ≡ false
    → starts log ≡ false
    → starts (run_plan P (cs ++ start_manager ∷ []) log).1 ≡ true
    → (run_plan P (cs ++ start_manager ∷ []) log).1 ≡ (log ++ cs) ++ start_manager ∷ []
run_plan-starts P [] log none_so_far before h = elim (Bool-cases (P log start_manager)) [
  | inl e ↦ rw (e, append-nil log) refl
  | inr e ↦ rw (e, append-nil log) refl
]
run_plan-starts P (c ∷ cs) log none_so_far before h = elim (Bool-cases (passes P log c)) [
  | inl e ↦
      ap (λ r. r.1) (go_on e)
      ∙ (run_plan-starts P cs (log ++ c ∷ []) (ground (arith, none_so_far)) added
            (sym (ap (λ r. starts r.1) (go_on e)) ∙ h)
          ∙ ap (λ l. l ++ start_manager ∷ []) (append_assoc log (c ∷ []) cs))
  | inr e ↦ absurd (ground (arith, added, sym (ap (λ r. starts r.1) (stop e)) ∙ h))
]
  where
    added : starts (log ++ c ∷ []) ≡ false
    added = starts-append log (c ∷ []) before (ground (arith, none_so_far))

    go_on :
        passes P log c ≡ true
        → run_plan P (c ∷ (cs ++ start_manager ∷ [])) log
          ≡ run_plan P (cs ++ start_manager ∷ []) (log ++ c ∷ [])
    go_on e = rw e refl

    stop :
        passes P log c ≡ false
        → run_plan P (c ∷ (cs ++ start_manager ∷ [])) log ≡ (false, log ++ c ∷ [])
    stop e = rw e refl

-- Calls that do not start it.
pub run_plan-never :
    (P : Platform) (cs log : List Call)
    → starts cs ≡ false
    → starts log ≡ false
    → starts (run_plan P cs log).1 ≡ false
run_plan-never P [] log none_here before = before
run_plan-never P (c ∷ cs) log none_here before = elim (Bool-cases (passes P log c)) [
  | inl e ↦ rw e (run_plan-never P cs (log ++ c ∷ []) (ground (arith, none_here)) added)
  | inr e ↦ rw e added
]
  where
    added : starts (log ++ c ∷ []) ≡ false
    added = starts-append log (c ∷ []) before (ground (arith, none_here))

watcher_calls-starts :
    (f : CertWatcher → Call) (o : Option CertWatcher)
    → ((w : CertWatcher) → is_start (f w) ≡ false)
    → starts (watcher_calls f o) ≡ false
watcher_calls-starts f none h = refl
watcher_calls-starts f (some w) h = rw (h w) refl

pprof_calls-starts : (flags : Flags) → starts (pprof_calls flags) ≡ false
pprof_calls-starts flags = elim (Bool-cases flags.enable_pprof) [
  | inl e ↦ rw e refl
  | inr e ↦ rw e refl
]

module _ (version : String) (flags : Flags) where
  pub set_up_calls-starts : starts (set_up_calls version flags) ≡ false
  set_up_calls-starts =
      starts-append (watcher_calls new_cert_watcher (webhook_cert_watcher flags)) _
        (watcher_calls-starts new_cert_watcher (webhook_cert_watcher flags) (λ w. refl))
        (starts-append (watcher_calls new_cert_watcher (metrics_cert_watcher flags)) _
          (watcher_calls-starts new_cert_watcher (metrics_cert_watcher flags) (λ w. refl))
          (starts-append (watcher_calls add_to_manager (metrics_cert_watcher flags)) _
            (watcher_calls-starts add_to_manager (metrics_cert_watcher flags) (λ w. refl))
            (starts-append (watcher_calls add_to_manager (webhook_cert_watcher flags)) _
              (watcher_calls-starts add_to_manager (webhook_cert_watcher flags) (λ w. refl))
              (pprof_calls-starts flags))))
