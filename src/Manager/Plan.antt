-- ===== src/Manager/Plan.antt =====
-- The calls of a start-up, as a list, and what the process makes of it.
use kbrain.Prelude.{
  Option, none, some, List, [], ◌∷◌, ◌++◌, map, ◌≡◌, refl, sym, subst, ap, ◌∙◌, Bool-cases, inl,
  inr, ◌⊎◌, if◌then◌else◌, arith, append-nil,
}
use kbrain.Prelude.Text.{Text, lit, is_empty}
use kbrain.Effects.{Error}
use kbrain.Manager.Flags.{Flags, default_flags, BootLibs}
use kbrain.Memory.DeepCopy.{task_root, pool_root, task_list_root, pool_list_root}
use kbrain.Manager.Registration.{SchemeBuilder, scheme_builder, init_pool_types, init_task_types}
use kbrain.Manager.Tls.{TlsOption, serve_certificate, initial_tls_opts}
use kbrain.Manager.Options.{
  MetricsOptions, metrics_options, manager_options, new_client, task_set_up, pool_set_up,
}
use kbrain.Manager.Boot.{
  client_go, agents_v1alpha1, BootCall, add_to_scheme, new_cert_watcher, get_config, new_manager,
  set_up_with_manager, add_watcher, add_healthz_check, add_readyz_check, start_manager, Boot, done,
  call, exit, panic, ◌>>=◌, Ending, returned, panicked, exited, Host, trace,
}
use kbrain.Manager.Main.{
  init_schemes, watch_certificate, webhook_files, metrics_files, webhook_tls, metrics_server,
  add_to_manager, start_up, main,
}

-- How the process ends when the call fails.
abbrev pub halt {ℓ} : {A : Type ℓ} → BootCall → Boot A
halt (add_to_scheme g) = panic
halt _ = exit 1

abbrev pub end_at : BootCall → Ending
end_at (add_to_scheme g) = panicked
end_at _ = exited 1

abbrev pub succeeds : BootCall → BootCall × Option Error
succeeds c = (c, none)

-- The start-up makes the calls of the list while they succeed, and then has the result.
abbrev pub Follows : {A : Type 0} → Boot A → List BootCall → A → Type 0
Follows (done b) [] a = b ≡ a
Follows (call c k) (d ∷ ds) a =
    (c ≡ d) × ((e : Error) → k (some e) ≡ halt c) × Follows (k none) ds a
Follows (done b) (d ∷ ds) a = ⊥
Follows (call c k) [] a = ⊥
Follows (exit n) ds a = ⊥
Follows panic ds a = ⊥

halt-bind : {A B : Type 0} (c : BootCall) (f : A → Boot B) → (halt {A = A} c >>= f) ≡ halt c
halt-bind (add_to_scheme g) f = refl
halt-bind (new_cert_watcher w) f = refl
halt-bind get_config f = refl
halt-bind (new_manager o) f = refl
halt-bind (set_up_with_manager x) f = refl
halt-bind (add_watcher w) f = refl
halt-bind (add_healthz_check n) f = refl
halt-bind (add_readyz_check n) f = refl
halt-bind start_manager f = refl

Follows-bind :
    {A B : Type 0} (a : A) (b : B) (m : Boot A) (f : A → Boot B) (cs ds : List BootCall)
    → Follows m cs a
    → Follows (f a) ds b
    → Follows (m >>= f) (cs ++ ds) b
Follows-bind a b (done x) f [] ds p q = subst (λ y. Follows (f y) ds b) (sym p) q
Follows-bind a b (done x) f (c ∷ cs) ds p q = absurd p
Follows-bind a b (call c k) f [] ds p q = absurd p
Follows-bind a b (call c k) f (d ∷ cs) ds (e, h, p) q =
    (e, (λ x. ap (λ m. m >>= f) (h x) ∙ halt-bind c f), Follows-bind a b (k none) f cs ds p q)
Follows-bind a b (exit n) f cs ds p q = absurd p
Follows-bind a b panic f cs ds p q = absurd p

-- A run makes all calls of the list and returns, or makes those before one that fails, and that one,
-- and then ends.
abbrev pub UpToFailure : List BootCall → List (BootCall × Option Error) × Ending → Type 0
UpToFailure plan t =
    (t ≡ (map succeeds plan, returned))
    ⊎ ((before : List BootCall) × (c : BootCall) × (after : List BootCall) × (e : Error) × (plan
          ≡ before ++ c ∷ after)
        × (t ≡ (map succeeds before ++ (c, some e) ∷ [], end_at c)))

trace-halt :
    (A : Type 0) {S : Type 0} (h : Host S) (c : BootCall) (s : S)
    → trace h (halt {A = A} c) s ≡ ([], end_at c)
unfolding trace
trace-halt A h (add_to_scheme g) s = refl
trace-halt A h (new_cert_watcher w) s = refl
trace-halt A h get_config s = refl
trace-halt A h (new_manager o) s = refl
trace-halt A h (set_up_with_manager x) s = refl
trace-halt A h (add_watcher w) s = refl
trace-halt A h (add_healthz_check n) s = refl
trace-halt A h (add_readyz_check n) s = refl
trace-halt A h start_manager s = refl

UpToFailure-cons :
    (c : BootCall) (plan : List BootCall) (t : List (BootCall × Option Error) × Ending)
    → UpToFailure plan t
    → UpToFailure (c ∷ plan) (succeeds c ∷ t.0, t.1)
UpToFailure-cons c plan t (inl h) = inl (rw h refl)
UpToFailure-cons c plan t (inr (before, d, after, e, p, q)) =
    inr (c ∷ before, d, after, e, rw p refl, rw q refl)

answered-UpToFailure :
    {A S : Type 0} (h : Host S) (c : BootCall) (k : Option Error → Boot A) (cs : List BootCall)
    (r : Option Error) (s : S)
    → ((e : Error) → k (some e) ≡ halt c)
    → UpToFailure cs (trace h (k none) s)
    → UpToFailure (c ∷ cs) ((c, r) ∷ (trace h (k r) s).0, (trace h (k r) s).1)
answered-UpToFailure h c k cs none s f u = UpToFailure-cons c cs (trace h (k none) s) u
answered-UpToFailure {A = A} h c k cs (some e) s f u =
    inr ([], c, cs, e, refl, rw (f e, trace-halt A h c s) refl)

trace-UpToFailure :
    {A S : Type 0} (h : Host S) (a : A) (m : Boot A) (cs : List BootCall) (s : S)
    → Follows m cs a
    → UpToFailure cs (trace h m s)
unfolding trace
trace-UpToFailure h a (done b) [] s p = inl refl
trace-UpToFailure h a (done b) (c ∷ cs) s p = absurd p
trace-UpToFailure h a (call c k) [] s p = absurd p
trace-UpToFailure h a (call c k) (d ∷ cs) s (e, f, p) =
    let (r, s') = h.answer c s in
    rw (← e) (answered-UpToFailure h c k cs r s' f (trace-UpToFailure h a (k none) cs s' p))
trace-UpToFailure h a (exit n) cs s p = absurd p
trace-UpToFailure h a panic cs s p = absurd p

-- The element, if the path is set.
abbrev pub if_set : {A : Type 0} → Text → A → List A
if_set path a = if is_empty path then [] else a ∷ []

-- Both custom resources and their lists, in the group and version of their manifests.
abbrev pub planned_types : SchemeBuilder
planned_types = record {
  group_version = record { group = lit "agents.kbrain.io"; version = lit "v1alpha1" };
  registered = (pool_root ∷ pool_list_root ∷ []) ∷ (task_root ∷ task_list_root ∷ []) ∷ [];
}

module _ (libs : BootLibs) (f : Flags) where
  abbrev pub planned_webhook : List TlsOption
  planned_webhook =
      initial_tls_opts f.enable_http2
      ++ if_set f.webhook_cert_path (serve_certificate (webhook_files libs f))

  abbrev pub planned_metrics : MetricsOptions
  planned_metrics = record (metrics_options f) {
    tls_opts =
        initial_tls_opts f.enable_http2
        ++ if_set f.metrics_cert_path (serve_certificate (metrics_files libs f));
  }

  -- The calls of a start-up that goes well.
  abbrev pub plan : List BootCall
  plan =
      add_to_scheme client_go
      ∷ add_to_scheme (agents_v1alpha1 planned_types)
      ∷ (if_set f.webhook_cert_path (new_cert_watcher (webhook_files libs f))
          ++ (if_set f.metrics_cert_path (new_cert_watcher (metrics_files libs f))
              ++ (get_config
                  ∷ new_manager (manager_options f planned_webhook planned_metrics)
                  ∷ set_up_with_manager (task_set_up new_client)
                  ∷ set_up_with_manager pool_set_up
                  ∷ (if_set f.metrics_cert_path (add_watcher (metrics_files libs f))
                      ++ (if_set f.webhook_cert_path (add_watcher (webhook_files libs f))
                          ++ (add_healthz_check (lit "healthz")
                              ∷ add_readyz_check (lit "readyz")
                              ∷ start_manager
                              ∷ []))))))

abbrev pub parsed : BootLibs → Flags
parsed libs = libs.parse_flags default_flags

main-Follows : (libs : BootLibs) → Follows (main libs) (plan libs (parsed libs)) tt
unfolding scheme_builder init_pool_types init_task_types main init_schemes start_up webhook_tls
    metrics_server watch_certificate add_to_manager metrics_options
main-Follows libs = elim (Bool-cases (is_empty (parsed libs).webhook_cert_path)) [
  | inl w ↦ elim (Bool-cases (is_empty (parsed libs).metrics_cert_path)) [
    | inl m ↦ rw (w, m, append-nil _) (ground arith)
    | inr m ↦ rw (w, m, append-nil _) (ground arith)
  ]
  | inr w ↦ elim (Bool-cases (is_empty (parsed libs).metrics_cert_path)) [
    | inl m ↦ rw (w, m, append-nil _) (ground arith)
    | inr m ↦ rw (w, m) (ground arith)
  ]
]

-- Whatever the calls answer, a start-up makes those of the plan in order and returns if all succeed; at
-- the first that fails it makes no further call and exits with status 1, or panics where that call adds
-- types to the scheme. The types added are the client library's, and both custom resources with their
-- lists. So the manager starts only after both controllers, the checks, and the watcher
-- of each certificate that is configured have been added to it.
pub main_follows_plan :
    {S : Type 0} (h : Host S) (libs : BootLibs) (s : S)
    → UpToFailure (plan libs (parsed libs)) (trace h (main libs) s)
main_follows_plan h libs s =
    trace-UpToFailure h tt (main libs) (plan libs (parsed libs)) s (main-Follows libs)
