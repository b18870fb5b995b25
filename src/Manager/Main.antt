-- ===== src/Manager/Main.antt =====
-- `init` and `main` of cmd/main.go.
use kbrain.Prelude.{Option, none, some, List, [], ◌∷◌, ◌++◌, if◌then◌else◌}
use kbrain.Prelude.Text.{lit, is_empty}
use kbrain.Manager.Flags.{Flags, default_flags, BootLibs}
use kbrain.Manager.Registration.{scheme_builder}
use kbrain.Manager.Tls.{CertWatcher, TlsOption, serve_certificate, initial_tls_opts}
use kbrain.Manager.Options.{
  MetricsOptions, metrics_options, manager_options, new_client, task_set_up, pool_set_up,
}
use kbrain.Manager.Boot.{
  client_go, agents_v1alpha1, add_to_scheme, new_cert_watcher, get_config, new_manager,
  set_up_with_manager, add_watcher, add_healthz_check, add_readyz_check, start_manager, Boot, done,
  ◌>>=◌, ◌>>◌, or_exit, must,
}

unfoldable pub init_schemes : Boot (Unit {0})
unfolding scheme_builder
init_schemes = do
  must (add_to_scheme client_go)
  must (add_to_scheme (agents_v1alpha1 scheme_builder))

-- The watcher of a certificate and the options that serve it, added to those before.
unfoldable pub watch_certificate :
    CertWatcher → List TlsOption → Boot (Option CertWatcher × List TlsOption)
watch_certificate w opts = do
  or_exit (new_cert_watcher w)
  done (some w, opts ++ serve_certificate w ∷ [])

module _ (libs : BootLibs) (f : Flags) where
  abbrev pub webhook_files : CertWatcher
  webhook_files = record {
    cert_file = libs.join_path f.webhook_cert_path f.webhook_cert_name;
    key_file = libs.join_path f.webhook_cert_path f.webhook_cert_key;
  }

  abbrev pub metrics_files : CertWatcher
  metrics_files = record {
    cert_file = libs.join_path f.metrics_cert_path f.metrics_cert_name;
    key_file = libs.join_path f.metrics_cert_path f.metrics_cert_key;
  }

  -- The watcher and the TLS options of the webhook server.
  unfoldable pub webhook_tls : Boot (Option CertWatcher × List TlsOption)
  unfolding watch_certificate
  webhook_tls =
      let opts = initial_tls_opts f.enable_http2 in
      if is_empty f.webhook_cert_path
      then done (none, opts)
      else watch_certificate webhook_files opts

  -- The watcher and the options of the metrics server.
  unfoldable pub metrics_server : Boot (Option CertWatcher × MetricsOptions)
  unfolding watch_certificate
  metrics_server =
      let o = metrics_options f in
      if is_empty f.metrics_cert_path then done (none, o) else (do
        (w, opts) ← watch_certificate metrics_files o.tls_opts
        done (w, record o { tls_opts = opts }))

  -- A watcher, where there is one, runs with the manager.
  unfoldable pub add_to_manager : Option CertWatcher → Boot (Unit {0})
  add_to_manager none = done tt
  add_to_manager (some w) = or_exit (add_watcher w)

  -- `main`, from the parsed flags.
  unfoldable pub start_up : Boot (Unit {0})
  unfolding webhook_tls metrics_server add_to_manager
  start_up = do
    (webhook_watcher, webhook_tls_opts) ← webhook_tls
    (metrics_watcher, metrics) ← metrics_server
    or_exit get_config
    or_exit (new_manager (manager_options f webhook_tls_opts metrics))
    or_exit (set_up_with_manager (task_set_up new_client))
    or_exit (set_up_with_manager pool_set_up)
    add_to_manager metrics_watcher
    add_to_manager webhook_watcher
    or_exit (add_healthz_check (lit "healthz"))
    or_exit (add_readyz_check (lit "readyz"))
    or_exit start_manager

-- The process: the schemes, which `init` fills, and `main`.
unfoldable pub main : BootLibs → Boot (Unit {0})
unfolding init_schemes start_up
main libs = do init_schemes; start_up libs (libs.parse_flags default_flags)
