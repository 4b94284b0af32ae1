-- ===== src/Cmd/Flags.antt =====
-- cmd/main.go: the command line's flags and their defaults.
use redkey_operator.Common.{String, Bool, false}
use redkey_operator.Common.Int.{ℤ, pos}
use redkey_operator.Api.Types.{Time}

-- The variables that the flags are parsed into. The logger's own flags are left out.
pub record Flags : Type 0 where
  pub metrics_addr : String
  pub probe_addr : String
  pub enable_leader_election : Bool
  pub secure_metrics : Bool
  pub watch_namespaces : String
  pub webhook_cert_path : String
  pub webhook_cert_name : String
  pub webhook_cert_key : String
  pub metrics_cert_path : String
  pub metrics_cert_name : String
  pub metrics_cert_key : String
  pub enable_http2 : Bool
  pub enable_pprof : Bool
  pub pprof_addr : String
  pub resync_interval : Time
  pub max_concurrent_reconciles : ℤ
  pub show_version : Bool

-- An empty command line.
abbrev pub default_flags : Flags
default_flags = record {
  metrics_addr = ":8080";
  probe_addr = ":8081";
  enable_leader_election = false;
  secure_metrics = false;
  watch_namespaces = "";
  webhook_cert_path = "";
  webhook_cert_name = "tls.crt";
  webhook_cert_key = "tls.key";
  metrics_cert_path = "";
  metrics_cert_name = "tls.crt";
  metrics_cert_key = "tls.key";
  enable_http2 = false;
  enable_pprof = false;
  pprof_addr = ":6060";
  resync_interval = pos 300000000000;
  max_concurrent_reconciles = pos 10;
  show_version = false;
}
