-- ===== src/Tests/Command.antt =====
-- The theorems on the command at concrete inputs.
use redkey_operator.Common.{Bool, true, false, none, some, List, [], ◌∷◌, ◌++◌, ◌≡◌, refl, ◌⊎◌}
use redkey_operator.Common.GoMap.{lookup}
use redkey_operator.Common.Text.{trim_space, split, is_space}
use redkey_operator.Common.FilePath.{join_path}
use redkey_operator.Cmd.Flags.{Flags, default_flags}
use redkey_operator.Cmd.Namespaces.{Field, cache_options, lookup-cache_options}
use redkey_operator.Cmd.Tls.{TlsConfig, configure}
use redkey_operator.Cmd.Start.{
  Platform, Call, get_config, start_manager, setup_controller, add_healthz_check, add_readyz_check,
  process, webhook_opts, metrics_options, controller_setup,
}
use redkey_operator.Cmd.Start.Plan.{plan, all_pass, StopsAt}
use redkey_operator.Cmd.Start.Runs.{process-plan}
use redkey_operator.Cmd.Start.Ready.{Within, Watched, process-start_manager}

join_path-parts : join_path "/tmp//certs/../tls/" "./tls.crt" ≡ "/tmp/tls/tls.crt"
unfolding join_path
join_path-parts = refl

join_path-relative : join_path "../certs" "../tls.key" ≡ "../tls.key"
unfolding join_path
join_path-relative = refl

split-commas : split ",a,,b" b',' ≡ "" ∷ "a" ∷ "" ∷ "b" ∷ []
unfolding split
split-commas = refl

trim_space-both : trim_space " \t shop \n" ≡ "shop"
unfolding trim_space is_space
trim_space-both = refl

-- Certificates for both servers, namespaces and profiling.
abbrev flags : Flags
flags = record default_flags {
  watch_namespaces = "shop, stock ";
  webhook_cert_path = "/certs/webhook";
  metrics_cert_path = "/certs/metrics";
  enable_pprof = true;
}

abbrev fields : List Field
fields = record { before = " "; name = "stock"; after = " " } ∷ []

lookup-cache_options_example : lookup "stock" (cache_options flags).default_namespaces ≡ some tt
unfolding is_space
lookup-cache_options_example =
    lookup-cache_options flags (record { before = ""; name = "shop"; after = "" }) fields "stock"
      ((refl, refl, refl, refl), ((refl, refl, refl, refl), tt)) refl

abbrev plain : TlsConfig
plain = record { next_protos = "h2" ∷ []; get_certificate = none }

-- Where nothing fails.
abbrev Fine : Platform
Fine = λ log c. true

abbrev is_get_config : Call → Bool
is_get_config get_config = false
is_get_config _ = true

-- Where no configuration of a cluster is found.
abbrev Astray : Platform
Astray = λ log c. is_get_config c

process-plan_example :
    (((process Astray "dev" "go1.25" flags).run [] ≡ (true, plan "dev" "go1.25" flags))
      × (all_pass Astray (plan "dev" "go1.25" flags) [] ≡ true))
    ⊎ ((ran : List Call) × ((process Astray "dev" "go1.25" flags).run [] ≡ (false, ran))
        × StopsAt Astray (plan "dev" "go1.25" flags) [] ran)
process-plan_example = process-plan Astray "dev" "go1.25" flags

process-start_manager_example :
    (before : List Call) × (((process Fine "dev" "go1.25" flags).run []).1
      ≡ before ++ start_manager ∷ [])
    × Within (setup_controller (controller_setup flags)) before
    × Within (add_healthz_check "healthz") before
    × Within (add_readyz_check "readyz") before
    × Watched (configure (webhook_opts flags) plain).get_certificate before
    × Watched (configure (metrics_options flags).tls_opts plain).get_certificate before
unfolding process
process-start_manager_example = process-start_manager Fine "dev" "go1.25" flags plain refl refl
