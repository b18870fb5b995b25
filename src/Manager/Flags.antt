-- ===== src/Manager/Flags.antt =====
-- The command line flags of the operator.
use kbrain.Prelude.{Bool, true, false, []}
use kbrain.Prelude.Text.{Text, lit}

-- The variables that hold the flags.
pub record Flags : Type 0 where
  pub metrics_addr : Text
  pub metrics_cert_path : Text
  pub metrics_cert_name : Text
  pub metrics_cert_key : Text
  pub webhook_cert_path : Text
  pub webhook_cert_name : Text
  pub webhook_cert_key : Text
  pub enable_leader_election : Bool
  pub probe_addr : Text
  pub secure_metrics : Bool
  pub enable_http2 : Bool

-- What the flags are before the command line is read.
abbrev pub default_flags : Flags
default_flags = record {
  metrics_addr = lit "0";
  metrics_cert_path = [];
  metrics_cert_name = lit "tls.crt";
  metrics_cert_key = lit "tls.key";
  webhook_cert_path = [];
  webhook_cert_name = lit "tls.crt";
  webhook_cert_key = lit "tls.key";
  enable_leader_election = false;
  probe_addr = lit ":8081";
  secure_metrics = true;
  enable_http2 = false;
}

-- Functions of the standard library: `flag.Parse` with the command line of the process, which ends
-- the process itself on a flag that it does not know, and `filepath.Join` on two parts.
pub record BootLibs : Type 0 where
  pub parse_flags : Flags → Flags
  pub join_path : Text → Text → Text
