-- ===== src/Cmd/Start/Runs.antt =====
-- cmd/main.go: the process runs the calls of its plan, up to the first that goes wrong.
use redkey_operator.Common.{
  String, Bool, true, false, Option, none, some, List, [], ◌∷◌, ◌++◌, ◌≡◌, refl, sym, ap, subst,
  ◌∙◌, ◌⊎◌, inl, inr, if◌then◌else◌, Bool-cases, arith,
}
use mathlib.Core.List.{append_assoc, append-nil}
use redkey_operator.Cmd.Flags.{Flags}
use redkey_operator.Cmd.Tls.{CertWatcher, webhook_cert_watcher, metrics_cert_watcher}
use redkey_operator.Cmd.Start.{
  Call, add_to_scheme, must_register, print_line, set_logger, new_cert_watcher, new_webhook_server,
  get_config, new_manager, setup_controller, add_to_manager, add_healthz_check, add_readyz_check,
  setup_signal_handler, start_manager, client_go, redkey_v1beta1, Platform, Start, proceed, ◌>>◌,
  call, tell, done, with_watcher, start_pprof, run_operator, main, init, process, user_agent,
  webhook_opts, manager_options, controller_setup, build_info,
}
use redkey_operator.Cmd.Start.Plan.{
  watcher_calls, pprof_calls, set_up_calls, plan, can_fail, passes, run_plan, all_pass, StopsAt,
}

module _ (P : Platform) where
  -- A part of the program runs these calls.
  pub record Runs (m : Start P) (cs : List Call) : Type 0 where
    pub same : (log : List Call) → m.run log ≡ run_plan P cs log

  run_plan-append :
      (n : Start P) (cs ds log : List Call)
      → Runs n ds
      → run_plan P (cs ++ ds) log ≡ proceed n (run_plan P cs log)
  run_plan-append n [] ds log h = sym (h.same log)
  run_plan-append n (c ∷ cs) ds log h = elim (Bool-cases (passes P log c)) [
    | inl e ↦ rw e (run_plan-append n cs ds (log ++ c ∷ []) h)
    | inr e ↦ rw e refl
  ]

  Runs-then : {m n : Start P} {cs ds : List Call} → Runs m cs → Runs n ds → Runs (m >> n) (cs ++ ds)
  unfolding ◌>>◌
  Runs-then {m} {n} {cs} {ds} f g = record {
    same = λ log. ap (proceed n) (f.same log) ∙ sym (run_plan-append n cs ds log g);
  }

  Runs-as : {m : Start P} {cs ds : List Call} → Runs m cs → ds ≡ cs → Runs m ds
  Runs-as f e = record { same = λ log. f.same log ∙ ap (λ l. run_plan P l log) (sym e) }

  Runs-call : (c : Call) → can_fail c ≡ true → Runs (call c) (c ∷ [])
  unfolding call
  Runs-call c e = record { same = λ log. rw e (ground arith) }

  Runs-tell : (c : Call) → can_fail c ≡ false → Runs (tell c) (c ∷ [])
  unfolding tell
  Runs-tell c e = record { same = λ log. rw e refl }

  Runs-with_watcher :
      (f : CertWatcher → Call) (w : Option CertWatcher)
      → ((v : CertWatcher) → can_fail (f v) ≡ true)
      → Runs (with_watcher P f w) (watcher_calls f w)
  unfolding with_watcher done
  Runs-with_watcher f none h = record { same = λ log. refl }
  Runs-with_watcher f (some v) h = record { same = (Runs-call (f v) (h v)).same }

  Runs-if :
      (b : Bool) {m n : Start P} {cs ds : List Call}
      → Runs m cs
      → Runs n ds
      → Runs (if b then m else n) (if b then cs else ds)
  Runs-if true f g = record { same = f.same }
  Runs-if false f g = record { same = g.same }

  Runs-start_pprof : (flags : Flags) → Runs (start_pprof P flags) (pprof_calls flags)
  unfolding start_pprof
  Runs-start_pprof flags =
      Runs-if flags.enable_pprof (Runs-then (Runs-tell _ refl) (Runs-tell _ refl)) nothing
    where
      nothing : Runs done []
      nothing = record { same = λ log. unfold done in refl }

  Runs-run_operator :
      (version : String) (flags : Flags)
      → Runs (run_operator P version flags) (set_up_calls version flags ++ start_manager ∷ [])
  unfolding run_operator
  Runs-run_operator version flags =
      let steps = Runs-then (Runs-tell set_logger refl) (
        Runs-then (Runs-with_watcher new_cert_watcher (webhook_cert_watcher flags) (λ v. refl)) (
          Runs-then (Runs-tell (new_webhook_server (webhook_opts flags)) refl) (
            Runs-then (Runs-with_watcher new_cert_watcher (metrics_cert_watcher flags) (λ v. refl))
              (Runs-then (Runs-call get_config refl) (
                Runs-then
                  (Runs-call (new_manager (user_agent version) (manager_options flags)) refl)
                  (Runs-then (Runs-call (setup_controller (controller_setup flags)) refl) (
                    Runs-then
                      (Runs-with_watcher add_to_manager (metrics_cert_watcher flags) (λ v. refl))
                      (Runs-then
                        (Runs-with_watcher add_to_manager (webhook_cert_watcher flags) (λ v. refl))
                        (Runs-then (Runs-call (add_healthz_check "healthz") refl) (
                          Runs-then (Runs-call (add_readyz_check "readyz") refl) (
                            Runs-then (Runs-tell setup_signal_handler refl) (
                              Runs-then (Runs-start_pprof flags)
                                (Runs-call start_manager refl))))))))))))) in
      Runs-as steps (simp append_assoc)

  pub Runs-process :
      (version go_version : String) (flags : Flags)
      → Runs (process P version go_version flags) (plan version go_version flags)
  unfolding process init main
  Runs-process version go_version flags =
      Runs-then
        (Runs-then (Runs-call (add_to_scheme client_go) refl) (
          Runs-then (Runs-call (add_to_scheme redkey_v1beta1) refl)
            (Runs-call (must_register (build_info version go_version)) refl)))
        (Runs-if flags.show_version (Runs-tell (print_line version) refl)
          (Runs-run_operator version flags))

  run_plan-ends :
      (cs log : List Call)
      → ((run_plan P cs log ≡ (true, log ++ cs)) × (all_pass P cs log ≡ true))
        ⊎ ((ran : List Call) × (run_plan P cs log ≡ (false, ran)) × StopsAt P cs log ran)
  run_plan-ends [] log = inl (ap (λ l. (true, l)) (sym (append-nil log)), refl)
  run_plan-ends (c ∷ cs) log = elim (Bool-cases (passes P log c)) [
    | inr bad ↦ inr (
      log ++ c ∷ [],
      rw bad refl,
      (
        [],
        c,
        cs,
        refl,
        ap (λ l. l ++ c ∷ []) (sym (append-nil log)),
        refl,
        rw (append-nil log) bad,
      ),
    )
    | inl good ↦ elim (run_plan-ends cs (log ++ c ∷ [])) [
      | inl (same, pass) ↦ inl (
        rw good (same ∙ ap (λ l. (true, l)) (append_assoc log (c ∷ []) cs)),
        rw (good, pass) refl,
      )
      | inr (ran, same, (before, d, after, split, made, pass, bad)) ↦ inr (
        ran,
        rw good same,
        (
          c ∷ before,
          d,
          after,
          ap (λ l. c ∷ l) split,
          made ∙ ap (λ l. l ++ d ∷ []) (append_assoc log (c ∷ []) before),
          rw (good, pass) refl,
          subst (λ l. passes P l d ≡ false) (append_assoc log (c ∷ []) before) bad,
        ),
      )
    ]
  ]

  -- The process makes the calls of its plan in order. Either every call goes well and all of them are
  -- made; or the process ends in failure right after the first call that goes wrong, every call
  -- before it went well, and no later call is made.
  pub process-plan :
      (version go_version : String) (flags : Flags)
      → (((process P version go_version flags).run [] ≡ (true, plan version go_version flags))
          × (all_pass P (plan version go_version flags) [] ≡ true))
        ⊎ ((ran : List Call) × ((process P version go_version flags).run [] ≡ (false, ran))
            × StopsAt P (plan version go_version flags) [] ran)
  process-plan version go_version flags =
      let same = (Runs-process version go_version flags).same [] in
      elim (run_plan-ends (plan version go_version flags) []) [
        | inl (all, pass) ↦ inl (same ∙ all, pass)
        | inr (ran, e, rest) ↦ inr (ran, same ∙ e, rest)
      ]
