-- ===== src/Cmd/Start/Plan.antt =====
-- cmd/main.go: the process as a list of calls, run up to the first that fails.
use redkey_operator.Common.{
  String, Bool, true, false, ◌&&◌, Option, none, some, List, [], ◌∷◌, ◌++◌, ◌≡◌, if◌then◌else◌,
}
use redkey_operator.Common.Int.{pos}
use redkey_operator.Cmd.Flags.{Flags}
use redkey_operator.Cmd.Tls.{CertWatcher, webhook_cert_watcher, metrics_cert_watcher}
use redkey_operator.Cmd.Start.{
  Call, add_to_scheme, must_register, print_line, set_logger, new_cert_watcher, new_webhook_server,
  get_config, new_manager, setup_controller, add_to_manager, add_healthz_check, add_readyz_check,
  setup_signal_handler, serve_pprof, shut_down_pprof_when_done, start_manager, client_go,
  redkey_v1beta1, Platform, user_agent, webhook_opts, manager_options, controller_setup,
  pprof_server, build_info,
}

abbrev pub watcher_calls : (CertWatcher → Call) → Option CertWatcher → List Call
watcher_calls f none = []
watcher_calls f (some watcher) = f watcher ∷ []

abbrev pub pprof_calls : Flags → List Call
pprof_calls flags =
    if flags.enable_pprof
    then serve_pprof (pprof_server flags) ∷ shut_down_pprof_when_done (pos 5000000000) ∷ []
    else []

abbrev pub scheme_calls : String → String → List Call
scheme_calls version go_version =
    add_to_scheme client_go
    ∷ add_to_scheme redkey_v1beta1
    ∷ must_register (build_info version go_version)
    ∷ []

-- The calls before the manager is started.
abbrev pub set_up_calls : String → Flags → List Call
set_up_calls version flags =
    (set_logger ∷ [])
    ++ (watcher_calls new_cert_watcher (webhook_cert_watcher flags)
        ++ ((new_webhook_server (webhook_opts flags) ∷ [])
            ++ (watcher_calls new_cert_watcher (metrics_cert_watcher flags)
                ++ ((get_config
                      ∷ new_manager (user_agent version) (manager_options flags)
                      ∷ setup_controller (controller_setup flags)
                      ∷ [])
                    ++ (watcher_calls add_to_manager (metrics_cert_watcher flags)
                        ++ (watcher_calls add_to_manager (webhook_cert_watcher flags)
                            ++ ((add_healthz_check "healthz"
                                  ∷ add_readyz_check "readyz"
                                  ∷ setup_signal_handler
                                  ∷ [])
                                ++ pprof_calls flags)))))))

-- All calls of the process, where none fails.
abbrev pub plan : String → String → Flags → List Call
plan version go_version flags =
    scheme_calls version go_version
    ++ (if flags.show_version
        then print_line version ∷ []
        else set_up_calls version flags ++ start_manager ∷ [])

-- The calls that return an error, or panic.
abbrev pub can_fail : Call → Bool
can_fail (add_to_scheme _) = true
can_fail (must_register _) = true
can_fail (print_line _) = false
can_fail set_logger = false
can_fail (new_cert_watcher _) = true
can_fail (new_webhook_server _) = false
can_fail get_config = true
can_fail (new_manager _ _) = true
can_fail (setup_controller _) = true
can_fail (add_to_manager _) = true
can_fail (add_healthz_check _) = true
can_fail (add_readyz_check _) = true
can_fail setup_signal_handler = false
can_fail (serve_pprof _) = false
can_fail (shut_down_pprof_when_done _) = false
can_fail start_manager = true

module _ (P : Platform) where
  -- The call goes well, after the calls so far.
  abbrev pub passes : List Call → Call → Bool
  passes log c = if can_fail c then P log c else true

  abbrev pub run_plan : List Call → List Call → Bool × List Call
  run_plan [] log = (true, log)
  run_plan (c ∷ cs) log =
      let rest = run_plan cs (log ++ c ∷ []) in
      if passes log c then rest else (false, log ++ c ∷ [])

  -- Every one of the calls goes well, after those before it.
  abbrev pub all_pass : List Call → List Call → Bool
  all_pass [] log = true
  all_pass (c ∷ cs) log = passes log c && all_pass cs (log ++ c ∷ [])

  -- The first call that goes wrong, with the calls before it and those that are not made.
  abbrev pub StopsAt : List Call → List Call → List Call → Type 0
  StopsAt cs log ran =
      (before : List Call) × (c : Call) × (after : List Call) × (cs ≡ before ++ c ∷ after)
      × (ran ≡ (log ++ before) ++ c ∷ [])
      × (all_pass before log ≡ true)
      × (passes (log ++ before) c ≡ false)
