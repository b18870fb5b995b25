-- ===== src/Manager/Servers.antt =====
-- What the servers that the manager is created with do with a connection.
use kbrain.Prelude.{
  some, List, [], ◌∷◌, ◌++◌, map, ◌≡◌, sym, subst, Bool-cases, inl, inr, All, if◌then◌else◌, arith,
}
use kbrain.Prelude.Text.{lit, is_empty}
use kbrain.Effects.{Error}
use kbrain.Manager.Flags.{Flags, BootLibs}
use kbrain.Manager.Tls.{TlsConfig, disable_http2, serve_certificate, initial_tls_opts, apply_all}
use kbrain.Manager.Options.{metrics_options, manager_options}
use kbrain.Manager.Boot.{BootCall, new_manager, Host, trace}
use kbrain.Manager.Main.{webhook_files, metrics_files, main}
use kbrain.Manager.Plan.{succeeds, plan, parsed, main_follows_plan}

-- The calls that a start-up makes.
abbrev pub calls : {S : Type 0} → Host S → BootLibs → S → List BootCall
calls h libs s = map (λ x. x.0) (trace h (main libs) s).0

-- Neither server offers HTTP/2, unless the flag is set; then their own protocols stay.
abbrev pub Http2Guarded : Flags → BootCall → Type 0
Http2Guarded f (new_manager o) =
    (c : TlsConfig)
    → let protos = if f.enable_http2 then c.next_protos else lit "http/1.1" ∷ [] in
      ((apply_all o.metrics.tls_opts c).next_protos ≡ protos)
      × ((apply_all o.webhook_tls_opts c).next_protos ≡ protos)
Http2Guarded f _ = Unit

-- Each server presents the certificate of its own path, if that is set, and no option gives it
-- another.
abbrev pub OwnCertificates : BootLibs → Flags → BootCall → Type 0
OwnCertificates libs f (new_manager o) =
    (c : TlsConfig)
    → ((apply_all o.metrics.tls_opts c).get_certificate
        ≡ (if is_empty f.metrics_cert_path then c.get_certificate else some (metrics_files libs f)))
      × ((apply_all o.webhook_tls_opts c).get_certificate ≡ (
          if is_empty f.webhook_cert_path then c.get_certificate else some (webhook_files libs f)))
OwnCertificates libs f _ = Unit

All-succeeds :
    (P : BootCall → Type 0) (xs : List BootCall)
    → All P xs
    → All P (map (λ x. x.0) (map succeeds xs))
All-succeeds P [] h = tt
All-succeeds P (c ∷ xs) h = (h.0, All-succeeds P xs h.1)

All-upto :
    (P : BootCall → Type 0) (xs : List BootCall) (c : BootCall) (ys : List BootCall) (e : Error)
    → All P (xs ++ c ∷ ys)
    → All P (map (λ x. x.0) (map succeeds xs ++ (c, some e) ∷ []))
All-upto P [] c ys e h = (h.0, tt)
All-upto P (d ∷ xs) c ys e h = (h.0, All-upto P xs c ys e h.1)

-- What holds of every call of the plan holds of every call that is made.
calls-All :
    {S : Type 0} (P : BootCall → Type 0) (h : Host S) (libs : BootLibs) (s : S)
    → All P (plan libs (parsed libs))
    → All P (calls h libs s)
calls-All P h libs s a = elim (main_follows_plan h libs s) [
  | inl e ↦
      subst (λ t. All P (map (λ x. x.0) t.0)) (sym e) (All-succeeds P (plan libs (parsed libs)) a)
  | inr (xs, c, ys, e, p, q) ↦
      subst (λ t. All P (map (λ x. x.0) t.0)) (sym q) (All-upto P xs c ys e (subst (All P) p a))
]

plan-Http2Guarded : (libs : BootLibs) (f : Flags) → All (Http2Guarded f) (plan libs f)
unfolding manager_options metrics_options initial_tls_opts apply_all disable_http2 serve_certificate
plan-Http2Guarded libs f = elim (Bool-cases (is_empty f.webhook_cert_path)) [
  | inl w ↦ elim (Bool-cases (is_empty f.metrics_cert_path)) [
    | inl m ↦ rw (w, m) (ground arith)
    | inr m ↦ rw (w, m) (ground arith)
  ]
  | inr w ↦ elim (Bool-cases (is_empty f.metrics_cert_path)) [
    | inl m ↦ rw (w, m) (ground arith)
    | inr m ↦ rw (w, m) (ground arith)
  ]
]

plan-OwnCertificates : (libs : BootLibs) (f : Flags) → All (OwnCertificates libs f) (plan libs f)
unfolding manager_options metrics_options initial_tls_opts apply_all disable_http2 serve_certificate
plan-OwnCertificates libs f = elim (Bool-cases (is_empty f.webhook_cert_path)) [
  | inl w ↦ elim (Bool-cases (is_empty f.metrics_cert_path)) [
    | inl m ↦ rw (w, m) (ground arith)
    | inr m ↦ rw (w, m) (ground arith)
  ]
  | inr w ↦ elim (Bool-cases (is_empty f.metrics_cert_path)) [
    | inl m ↦ rw (w, m) (ground arith)
    | inr m ↦ rw (w, m) (ground arith)
  ]
]

-- Whatever fails during a start-up, every manager that it creates has a webhook and a metrics server
-- whose TLS options leave no protocol but http/1.1, unless the flag enable-http2 is set; with the flag
-- they leave the protocols as they are.
pub main_guards_http2 :
    {S : Type 0} (h : Host S) (libs : BootLibs) (s : S)
    → All (Http2Guarded (parsed libs)) (calls h libs s)
main_guards_http2 h libs s =
    calls-All (Http2Guarded (parsed libs)) h libs s (plan-Http2Guarded libs (parsed libs))

-- Whatever fails during a start-up, in every manager that it creates the TLS options of the metrics
-- server set the certificate of the metrics files, where a path of theirs is given, those of the
-- webhook server the certificate of the webhook files, where a path of theirs is given, and without a
-- path the options of the server set none.
pub main_separates_certificates :
    {S : Type 0} (h : Host S) (libs : BootLibs) (s : S)
    → All (OwnCertificates libs (parsed libs)) (calls h libs s)
main_separates_certificates h libs s =
    calls-All (OwnCertificates libs (parsed libs)) h libs s
      (plan-OwnCertificates libs (parsed libs))
