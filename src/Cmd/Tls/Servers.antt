-- ===== src/Cmd/Tls/Servers.antt =====
-- cmd/main.go: the configurations that the two servers end up with.
use redkey_operator.Common.{
  String, Option, none, some, List, [], ◌∷◌, ◌≡◌, refl, if◌then◌else◌, Bool-cases, inl, inr,
}
use redkey_operator.Cmd.Flags.{Flags}
use redkey_operator.Cmd.Tls.{
  CertWatcher, TlsConfig, webhook_cert_watcher, metrics_cert_watcher, tls_opts, add_certificate,
  with_certificate, disable_http2, configure,
}
use redkey_operator.Cmd.Start.{webhook_opts, metrics_options}

-- The certificate of the watcher, or what there was.
abbrev pub certificate : Option CertWatcher → TlsConfig → Option CertWatcher
certificate none c = c.get_certificate
certificate (some w) c = some w

-- The protocols that a server offers.
abbrev pub protocols : Flags → TlsConfig → List String
protocols flags c = if flags.enable_http2 then c.next_protos else "http/1.1" ∷ []

-- A configuration with both.
abbrev pub secured : Flags → Option CertWatcher → TlsConfig → TlsConfig
secured flags o c = record { next_protos = protocols flags c; get_certificate = certificate o c }

configure-add_certificate :
    (flags : Flags) (o : Option CertWatcher) (c : TlsConfig)
    → configure (add_certificate (tls_opts flags) o) c ≡ secured flags o c
unfolding add_certificate tls_opts with_certificate disable_http2
configure-add_certificate flags none c = elim (Bool-cases flags.enable_http2) [
  | inl e ↦ rw e refl
  | inr e ↦ rw e refl
]
configure-add_certificate flags (some w) c = elim (Bool-cases flags.enable_http2) [
  | inl e ↦ rw e refl
  | inr e ↦ rw e refl
]

pub configure-servers :
    (flags : Flags) (c : TlsConfig)
    → (configure (webhook_opts flags) c ≡ secured flags (webhook_cert_watcher flags) c)
      × (configure (metrics_options flags).tls_opts c
          ≡ secured flags (metrics_cert_watcher flags) c)
unfolding webhook_opts metrics_options
configure-servers flags c = (
  configure-add_certificate flags (webhook_cert_watcher flags) c,
  configure-add_certificate flags (metrics_cert_watcher flags) c,
)
