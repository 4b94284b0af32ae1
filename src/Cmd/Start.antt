-- ===== src/Cmd/Start.antt =====
-- cmd/main.go: the start of the process, as the calls that it makes in turn.
pub mod Plan
pub mod Runs
pub mod Starts
pub mod Ready
use redkey_operator.Common.{
  String, ◌<>◌, Bool, true, false, Option, none, some, List, [], ◌∷◌, ◌++◌, if◌then◌else◌,
}
use redkey_operator.Common.Int.{ℤ, pos}
use redkey_operator.Api.Types.{Time}
use redkey_operator.Cmd.Flags.{Flags}
use redkey_operator.Cmd.Namespaces.{CacheOptions, cache_options}
use redkey_operator.Cmd.Tls.{
  CertWatcher, TlsOption, tls_opts, webhook_cert_watcher, metrics_cert_watcher, add_certificate,
}
use redkey_operator.Reconcile.Setup.{RedkeyReconciler, ControllerSetup, setup_with_manager}

-- `metricsserver.Options`. `with_filter`: whether the FilterProvider is set, to the filter for
-- authentication and authorization.
pub record MetricsOptions : Type 0 where
  pub bind_address : String
  pub secure_serving : Bool
  pub tls_opts : List TlsOption
  pub with_filter : Bool

-- `ctrl.Options`, with the TLS options of its webhook server.
pub record ManagerOptions : Type 0 where
  pub metrics : MetricsOptions
  pub webhook_tls_opts : List TlsOption
  pub health_probe_bind_address : String
  pub leader_election : Bool
  pub leader_election_id : String
  pub cache : CacheOptions

-- The handlers of net/http/pprof.
pub data ProfileHandler : Type 0 where
  index cmdline profile symbol trace : ProfileHandler

pub record PprofServer : Type 0 where
  pub addr : String
  pub routes : List (String × ProfileHandler)
  pub read_header_timeout : Time

-- The gauge of the build's metadata.
pub record BuildInfo : Type 0 where
  pub name : String
  pub version : String
  pub go_version : String
  pub value : ℤ

-- The packages whose types the scheme gets.
pub data SchemePackage : Type 0 where
  client_go redkey_v1beta1 : SchemePackage

-- What the process asks of its environment.
pub data Call : Type 0 where
  add_to_scheme : SchemePackage → Call
  must_register : BuildInfo → Call
  print_line : String → Call
  set_logger : Call
  new_cert_watcher : CertWatcher → Call
  new_webhook_server : List TlsOption → Call
  get_config : Call
  new_manager : String → ManagerOptions → Call
  setup_controller : ControllerSetup → Call
  add_to_manager : CertWatcher → Call
  add_healthz_check : String → Call
  add_readyz_check : String → Call
  setup_signal_handler : Call
  serve_pprof : PprofServer → Call
  shut_down_pprof_when_done : Time → Call
  start_manager : Call

-- Whether a call succeeds, after the calls so far.
abbrev pub Platform : Type 0
Platform = List Call → Call → Bool

-- A part of the program: from the calls so far, whether it is passed, and the calls then. Where it is
-- not passed the process has ended: by a panic, or by `os.Exit(1)`.
pub record Start (P : Platform) : Type 0 where
  pub run : List Call → Bool × List Call

module _ {P : Platform} where
  -- The next part runs where the process has not ended.
  abbrev pub proceed : Start P → Bool × List Call → Bool × List Call
  proceed m (true, log) = m.run log
  proceed m (false, log) = (false, log)

  infixr 20 ◌>>◌
  unfoldable pub ◌>>◌ : Start P → Start P → Start P
  m >> n = record { run = λ log. proceed n (m.run log) }

  -- `if err := …; err != nil { os.Exit(1) }`
  unfoldable pub call : Call → Start P
  call c = record { run = λ log. (P log c, log ++ c ∷ []) }

  -- A call that has no error to return.
  unfoldable pub tell : Call → Start P
  tell c = record { run = λ log. (true, log ++ c ∷ []) }

  unfoldable pub done : Start P
  done = record { run = λ log. (true, log) }

unfoldable pub user_agent : String → String
user_agent version = "redkey-operator" <> ("/" <> version)

-- `metricsServerOptions`, after the certificate was added
unfoldable pub metrics_options : Flags → MetricsOptions
unfolding tls_opts add_certificate metrics_cert_watcher
metrics_options flags = record {
  bind_address = flags.metrics_addr;
  secure_serving = flags.secure_metrics;
  tls_opts = add_certificate (tls_opts flags) (metrics_cert_watcher flags);
  with_filter = flags.secure_metrics;
}

-- `webhookTLSOpts`, after the certificate was added
unfoldable pub webhook_opts : Flags → List TlsOption
unfolding tls_opts add_certificate webhook_cert_watcher
webhook_opts flags = add_certificate (tls_opts flags) (webhook_cert_watcher flags)

unfoldable pub manager_options : Flags → ManagerOptions
unfolding metrics_options webhook_opts cache_options
manager_options flags = record {
  metrics = metrics_options flags;
  webhook_tls_opts = webhook_opts flags;
  health_probe_bind_address = flags.probe_addr;
  leader_election = flags.enable_leader_election;
  leader_election_id = "ad09f20a.inditex.dev";
  cache = cache_options flags;
}

unfoldable pub controller_setup : Flags → ControllerSetup
unfolding setup_with_manager
controller_setup flags = setup_with_manager (record {
  resync_interval = flags.resync_interval;
  max_concurrent_reconciles = flags.max_concurrent_reconciles;
})

unfoldable pub pprof_server : Flags → PprofServer
pprof_server flags = record {
  addr = flags.pprof_addr;
  routes =
      ("/debug/pprof/", index)
      ∷ ("/debug/pprof/cmdline", cmdline)
      ∷ ("/debug/pprof/profile", profile)
      ∷ ("/debug/pprof/symbol", symbol)
      ∷ ("/debug/pprof/trace", trace)
      ∷ [];
  read_header_timeout = pos 10000000000;
}

unfoldable pub build_info : String → String → BuildInfo
build_info version go_version = record {
  name = "redkey_operator_build_info";
  version = version;
  go_version = go_version;
  value = pos 1;
}

module _ (P : Platform) where
  unfoldable pub with_watcher : (CertWatcher → Call) → Option CertWatcher → Start P
  unfolding done call
  with_watcher f none = done
  with_watcher f (some watcher) = call (f watcher)

  -- The block under `if enablePprof`. The two goroutines run beside the rest of the program, and what
  -- fails in them is logged or dropped.
  unfoldable pub start_pprof : Flags → Start P
  unfolding ◌>>◌ tell done pprof_server
  start_pprof flags =
      if flags.enable_pprof
      then (tell (serve_pprof (pprof_server flags))
          >> tell (shut_down_pprof_when_done (pos 5000000000)))
      else done

  -- `main` behind the check of `showVersion`
  unfoldable pub run_operator : String → Flags → Start P
  unfolding ◌>>◌ call tell with_watcher start_pprof user_agent webhook_opts manager_options
      controller_setup webhook_cert_watcher metrics_cert_watcher
  run_operator version flags = do
    tell set_logger
    with_watcher new_cert_watcher (webhook_cert_watcher flags)
    tell (new_webhook_server (webhook_opts flags))
    with_watcher new_cert_watcher (metrics_cert_watcher flags)
    call get_config
    call (new_manager (user_agent version) (manager_options flags))
    call (setup_controller (controller_setup flags))
    with_watcher add_to_manager (metrics_cert_watcher flags)
    with_watcher add_to_manager (webhook_cert_watcher flags)
    call (add_healthz_check "healthz")
    call (add_readyz_check "readyz")
    tell setup_signal_handler
    start_pprof flags
    call start_manager

  -- `main`
  unfoldable pub main : String → Flags → Start P
  unfolding tell run_operator
  main version flags =
      if flags.show_version then tell (print_line version) else run_operator version flags

  -- `init`
  unfoldable pub init : String → String → Start P
  unfolding ◌>>◌ call build_info
  init version go_version = do
    call (add_to_scheme client_go)
    call (add_to_scheme redkey_v1beta1)
    call (must_register (build_info version go_version))

  -- The process: `init` of this file, then `main`. The `init` of metrics.go, which Go runs before as
  -- that of an imported package and which registers the collectors, is left out.
  unfoldable pub process : String → String → Flags → Start P
  unfolding ◌>>◌ init main
  process version go_version flags = init version go_version >> main version flags
