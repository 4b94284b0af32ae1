-- ===== src/Cmd/Tls.antt =====
-- cmd/main.go: the TLS options of the metrics server and of the webhook server.
pub mod Servers
use redkey_operator.Common.{String, Bool, Option, none, some, List, [], ◌∷◌, ◌++◌, if◌then◌else◌}
use redkey_operator.Common.Text.{is_empty_string}
use redkey_operator.Common.FilePath.{join_path}
use redkey_operator.Cmd.Flags.{Flags}

-- A `*certwatcher.CertWatcher`, by the files that `certwatcher.New` was called with.
pub record CertWatcher : Type 0 where
  pub cert_file : String
  pub key_file : String

-- The fields of a `tls.Config` that the options write. `get_certificate` is the watcher whose method
-- it is.
pub record TlsConfig : Type 0 where
  pub next_protos : List String
  pub get_certificate : Option CertWatcher

-- `func(*tls.Config)`
abbrev pub TlsOption : Type 0
TlsOption = TlsConfig → TlsConfig

unfoldable pub disable_http2 : TlsOption
disable_http2 c = record c { next_protos = "http/1.1" ∷ [] }

unfoldable pub with_certificate : CertWatcher → TlsOption
with_certificate watcher c = record c { get_certificate = some watcher }

-- `tlsOpts`
unfoldable pub tls_opts : Flags → List TlsOption
unfolding disable_http2
tls_opts flags = if flags.enable_http2 then [] else disable_http2 ∷ []

-- The watchers that the flags ask for.
unfoldable pub webhook_cert_watcher : Flags → Option CertWatcher
unfolding join_path
webhook_cert_watcher flags =
    if is_empty_string flags.webhook_cert_path
    then none
    else some (record {
      cert_file = join_path flags.webhook_cert_path flags.webhook_cert_name;
      key_file = join_path flags.webhook_cert_path flags.webhook_cert_key;
    })

unfoldable pub metrics_cert_watcher : Flags → Option CertWatcher
unfolding join_path
metrics_cert_watcher flags =
    if is_empty_string flags.metrics_cert_path
    then none
    else some (record {
      cert_file = join_path flags.metrics_cert_path flags.metrics_cert_name;
      key_file = join_path flags.metrics_cert_path flags.metrics_cert_key;
    })

-- `append(opts, func…)` where there is a watcher. The slice appended to is full: it has no element,
-- or the one element of its first append. So every append makes a new array, and the two servers'
-- options share none.
unfoldable pub add_certificate : List TlsOption → Option CertWatcher → List TlsOption
unfolding with_certificate
add_certificate opts none = opts
add_certificate opts (some watcher) = opts ++ with_certificate watcher ∷ []

-- What a server does with its options: it applies each in turn to its configuration.
abbrev pub configure : List TlsOption → TlsConfig → TlsConfig
configure [] c = c
configure (f ∷ fs) c = configure fs (f c)
