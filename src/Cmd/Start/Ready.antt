-- ===== src/Cmd/Start/Ready.antt =====
-- cmd/main.go: what has been done when the manager is started.
use redkey_operator.Common.{
  String, true, false, Option, none, some, List, [], ◌∷◌, ◌++◌, ◌≡◌, refl, sym, ap, subst, ◌∙◌, inl,
  inr, Bool-cases, arith,
}
use redkey_operator.Cmd.Flags.{Flags}
use redkey_operator.Cmd.Tls.{
  CertWatcher, TlsConfig, webhook_cert_watcher, metrics_cert_watcher, configure,
}
use redkey_operator.Cmd.Tls.Servers.{certificate, configure-servers}
use redkey_operator.Cmd.Start.{
  Call, print_line, new_cert_watcher, setup_controller, add_to_manager, add_healthz_check,
  add_readyz_check, setup_signal_handler, start_manager, Platform, process, webhook_opts,
  metrics_options, controller_setup,
}
use redkey_operator.Cmd.Start.Plan.{
  watcher_calls, pprof_calls, scheme_calls, set_up_calls, plan, run_plan,
}
use redkey_operator.Cmd.Start.Runs.{Runs-process}
use redkey_operator.Cmd.Start.Starts.{starts, run_plan-starts, run_plan-never, set_up_calls-starts}

pub data Within {A : Type 0} (a : A) : List A → Type 0 where
  here : {xs : List A} → Within a (a ∷ xs)
  there : {b : A} {xs : List A} → Within a xs → Within a (b ∷ xs)

Within-append_left :
    {A : Type 0} {a : A} {xs : List A} (ys : List A) → Within a xs → Within a (xs ++ ys)
Within-append_left ys here = here
Within-append_left ys (there w) = there (Within-append_left ys w)

Within-append_right :
    {A : Type 0} {a : A} (xs : List A) {ys : List A} → Within a ys → Within a (xs ++ ys)
Within-append_right [] w = w
Within-append_right (x ∷ xs) w = there (Within-append_right xs w)

-- Where there is a watcher, it was made and added to the manager.
abbrev pub Watched : Option CertWatcher → List Call → Type 0
Watched none log = Unit
Watched (some w) log = Within (new_cert_watcher w) log × Within (add_to_manager w) log

abbrev Includes : List Call → List Call → Type 0
Includes cs log = (c : Call) → Within c cs → Within c log

Watched-Includes :
    (o : Option CertWatcher) (log : List Call)
    → Includes (watcher_calls new_cert_watcher o) log
    → Includes (watcher_calls add_to_manager o) log
    → Watched o log
Watched-Includes none log f g = tt
Watched-Includes (some w) log f g = (f (new_cert_watcher w) here, g (add_to_manager w) here)

module _ (version : String) (flags : Flags) where
  -- The calls behind the making of the watchers.
  after_watchers :
      Includes
        ((watcher_calls add_to_manager (metrics_cert_watcher flags)
          ++ (watcher_calls add_to_manager (webhook_cert_watcher flags)
              ++ ((add_healthz_check "healthz"
                    ∷ add_readyz_check "readyz"
                    ∷ setup_signal_handler
                    ∷ [])
                  ++ pprof_calls flags))))
        (set_up_calls version flags)
  after_watchers c w = there (
      Within-append_right (watcher_calls new_cert_watcher (webhook_cert_watcher flags)) (
        there (
          Within-append_right (watcher_calls new_cert_watcher (metrics_cert_watcher flags))
            (there (there (there w))))))

  metrics-Watched : Watched (metrics_cert_watcher flags) (set_up_calls version flags)
  metrics-Watched =
      Watched-Includes (metrics_cert_watcher flags) _
        (λ c w. there (
          Within-append_right (watcher_calls new_cert_watcher (webhook_cert_watcher flags))
            (there (Within-append_left _ w))))
        (λ c w. after_watchers c (Within-append_left _ w))

  webhook-Watched : Watched (webhook_cert_watcher flags) (set_up_calls version flags)
  webhook-Watched =
      Watched-Includes (webhook_cert_watcher flags) _ (λ c w. there (Within-append_left _ w))
        (λ c w. after_watchers c (
          Within-append_right (watcher_calls add_to_manager (metrics_cert_watcher flags))
            (Within-append_left _ w)))

  checks :
      Includes
        (add_healthz_check "healthz" ∷ add_readyz_check "readyz" ∷ setup_signal_handler ∷ [])
        (set_up_calls version flags)
  checks c w = after_watchers c (
      Within-append_right (watcher_calls add_to_manager (metrics_cert_watcher flags)) (
        Within-append_right (watcher_calls add_to_manager (webhook_cert_watcher flags))
          (Within-append_left _ w)))

  controller_set_up :
      Within (setup_controller (controller_setup flags)) (set_up_calls version flags)
  controller_set_up = there (
      Within-append_right (watcher_calls new_cert_watcher (webhook_cert_watcher flags)) (
        there (
          Within-append_right (watcher_calls new_cert_watcher (metrics_cert_watcher flags))
            (there (there here)))))

Watched-append :
    (o : Option CertWatcher) (cs log : List Call) → Watched o log → Watched o (cs ++ log)
Watched-append none cs log w = tt
Watched-append (some v) cs log (w, w') = (Within-append_right cs w, Within-append_right cs w')

certificate_fresh :
    (o : Option CertWatcher) (c : TlsConfig) → c.get_certificate ≡ none → certificate o c ≡ o
certificate_fresh none c e = e
certificate_fresh (some w) c e = refl

-- Where the manager is started, it is started last. By then the controller is set up and both
-- probes are registered, and every certificate that one of the two servers puts into a
-- configuration that had none is that of a watcher that was made and added to the manager.
pub process-start_manager :
    (P : Platform) (version go_version : String) (flags : Flags) (c : TlsConfig)
    → c.get_certificate ≡ none
    → starts ((process P version go_version flags).run []).1 ≡ true
    → (before : List Call) × (((process P version go_version flags).run []).1
        ≡ before ++ start_manager ∷ [])
      × Within (setup_controller (controller_setup flags)) before
      × Within (add_healthz_check "healthz") before
      × Within (add_readyz_check "readyz") before
      × Watched (configure (webhook_opts flags) c).get_certificate before
      × Watched (configure (metrics_options flags).tls_opts c).get_certificate before
process-start_manager P version go_version flags c fresh h = elim (Bool-cases flags.show_version) [
  | inl e ↦ absurd (only_prints e)
  | inr e ↦ (
    scheme_calls version go_version ++ set_up_calls version flags,
    ran e,
    Within-append_right (scheme_calls version go_version) (controller_set_up version flags),
    Within-append_right (scheme_calls version go_version) (checks version flags _ here),
    Within-append_right (scheme_calls version go_version) (checks version flags _ (there here)),
    used (webhook_cert_watcher flags) (ap (λ d. d.get_certificate) (configure-servers flags c).0)
        (webhook-Watched version flags),
    used (metrics_cert_watcher flags) (ap (λ d. d.get_certificate) (configure-servers flags c).1)
        (metrics-Watched version flags),
  )
]
  where
    same :
        (process P version go_version flags).run [] ≡ run_plan P (plan version go_version flags) []
    same = (Runs-process P version go_version flags).same []

    only_prints : flags.show_version ≡ true → ⊥
    only_prints e =
        let cs = scheme_calls version go_version ++ print_line version ∷ [] in
        let printed : plan version go_version flags ≡ cs = rw e refl in
        ground (
          arith,
          run_plan-never P cs [] refl refl,
          sym (ap (λ r. starts r.1) (same ∙ ap (λ l. run_plan P l []) printed)) ∙ h,
        )

    ran :
        flags.show_version ≡ false
        → ((process P version go_version flags).run []).1
          ≡ (scheme_calls version go_version ++ set_up_calls version flags) ++ start_manager ∷ []
    ran e =
        let cs = scheme_calls version go_version ++ set_up_calls version flags in
        let whole : plan version go_version flags ≡ cs ++ start_manager ∷ [] = rw e refl in
        let all = same ∙ ap (λ l. run_plan P l []) whole in
        ap (λ r. r.1) all
        ∙ run_plan-starts P cs [] (set_up_calls-starts version flags) refl
            (sym (ap (λ r. starts r.1) all) ∙ h)

    used :
        {o : Option CertWatcher} (o' : Option CertWatcher)
        → o ≡ certificate o' c
        → Watched o' (set_up_calls version flags)
        → Watched o (scheme_calls version go_version ++ set_up_calls version flags)
    used {o} o' e w =
        subst (λ x. Watched x (scheme_calls version go_version ++ set_up_calls version flags))
          (sym (e ∙ certificate_fresh o' c fresh))
          (Watched-append o' (scheme_calls version go_version) _ w)
