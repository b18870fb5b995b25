-- ===== src/Manager/Tls.antt =====
-- The TLS options of the webhook and the metrics server. An option is a function that the library
-- applies to the `tls.Config` of the server.
use kbrain.Prelude.{Bool, Option, some, List, [], ◌∷◌, if◌then◌else◌}
use kbrain.Prelude.Text.{Text, lit}

-- A watcher of the certificate and the key in two files.
pub record CertWatcher : Type 0 where
  pub cert_file : Text
  pub key_file : Text

-- The parts of a `tls.Config` that the options set; the certificate is asked for at a handshake.
pub record TlsConfig : Type 0 where
  pub next_protos : List Text
  pub get_certificate : Option CertWatcher

abbrev pub TlsOption : Type 0
TlsOption = TlsConfig → TlsConfig

unfoldable pub disable_http2 : TlsOption
disable_http2 c = record c { next_protos = lit "http/1.1" ∷ [] }

-- The option that makes a server present the watched certificate.
unfoldable pub serve_certificate : CertWatcher → TlsOption
serve_certificate w c = record c { get_certificate = some w }

-- `tlsOpts`, which both servers begin with.
unfoldable pub initial_tls_opts : Bool → List TlsOption
initial_tls_opts enable_http2 = if enable_http2 then [] else disable_http2 ∷ []

-- The options applied in order.
unfoldable pub apply_all : List TlsOption → TlsOption
apply_all [] c = c
apply_all (o ∷ os) c = apply_all os (o c)
