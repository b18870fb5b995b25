-- ===== src/TaskController/Progress.antt =====
-- What the handlers do when the cluster and the git host cooperate.
use kbrain.Prelude.{
  ℕ, List, ◌%◌, length, get_elem?, if◌then◌else◌, false, true, Option, none, some, [], ◌∷◌, ◌++◌,
  ◌≡◌, refl, ap, sym, subst, ◌⊎◌, inl, inr,
}
use kbrain.Prelude.Text.{Text, lit, is_empty, text_eq}
use kbrain.Api.{AgentTask, initializing, running, succeeded, lookup, Pod, Secret, SecretKeyRef}
use kbrain.Effects.{
  Libs, Error, ok, err, Key, is_not_found, Call, range_start, get_pod, get_secret, create_pod, now,
  update_task_status, Server, calls, calls-bind, run,
}
use kbrain.PodBuilder.Base.{pod_name, work_branch_for}
use kbrain.GitOps.Client.{PrResult, create_pull_request}
use kbrain.TaskController.Status.{with_status}
use kbrain.TaskController.Title.{truncate}
use kbrain.TaskController.CreatingMr.{
  first_key, resolve_secret_value, value_of_key, create_mr, mr_created, handle_creating_mr,
  request_options,
}
use kbrain.TaskController.Footprints.CreatingMr.{merged}
use kbrain.PodBuilder.Build.{new_pod_builder, build}
use kbrain.TaskController.Pending.{handle_pending, check_secret, start}
use kbrain.TaskController.Initializing.{
  pod_created, create_agent_pod, create_owned, build_pod, handle_initializing,
}
use kbrain.TaskController.Writes.{moved}
use kbrain.TaskController.StatusCalls.{set_phase-calls}
use kbrain.TaskController.Footprints.Pending.{Ready}
use kbrain.TaskController.Footprints.Initializing.{launched}

abbrev pub pod_key : AgentTask → Key
pod_key t = record { name = pod_name t; namespace = t.namespace }

-- The token lies under the key that the reference names or, where it names none, under the key at
-- which the range over the secret begins, as the server answers it.
abbrev pub HoldsToken : {S : Type 0} → Server S → SecretKeyRef → Secret → Text → S → S → Type 0
HoldsToken v ref secret token s s' =
    ((is_empty ref.key ≡ false) × (lookup ref.key secret.content ≡ some token) × (s' ≡ s))
    ⊎ ((is_empty ref.key ≡ true)
        × (start : ℕ) × (key : Text) × (v.answer (range_start (length secret.content)) s
            ≡ (start, s'))
        × (get_elem? secret.content (start % length secret.content) ≡ some (key, token))
        × (lookup key secret.content ≡ some token))

-- The range over the secret, where the reference names no key.
abbrev pub key_calls : SecretKeyRef → Secret → List Call
key_calls ref secret = if is_empty ref.key then range_start (length secret.content) ∷ [] else []

module _ {S : Type 0} (v : Server S) (libs : Libs) where
  check_secret-starts :
      (t : AgentTask) (ref : Option SecretKeyRef) (s : S)
      → (ref ≡ none) ⊎ (text_eq t.spec.model_provider (lit "cloud") ≡ false)
      → calls v (check_secret libs t ref) s
        ≡ update_task_status (moved t initializing (lit "Validated, creating agent pod")) ∷ []
  unfolding check_secret start
  check_secret-starts t none s h = set_phase-calls v t _ _ s
  check_secret-starts t (some ref) s (inl h) = cc
  check_secret-starts t (some ref) s (inr h) = rw h (set_phase-calls v t _ _ s)

  -- A task that passes validation and does not wait for a slot is started: if it refers to no API key
  -- secret or its provider is not the cloud, the only call of handlePending is the status write that
  -- sets the phase Initializing.
  pub handle_pending-starts :
      (t : AgentTask) (s : S)
      → Ready t
      → (t.spec.api_key_secret_ref ≡ none) ⊎ (text_eq t.spec.model_provider (lit "cloud") ≡ false)
      → calls v (handle_pending libs t) s
        ≡ update_task_status (moved t initializing (lit "Validated, creating agent pod")) ∷ []
  unfolding handle_pending
  handle_pending-starts t s r e =
      rw (r.described, r.has_repo, r.has_base, r.has_slot)
        (check_secret-starts t t.spec.api_key_secret_ref s e)

  -- If no pod of the task's name is found, the builder builds one, its owner can be set, and the
  -- cluster creates it, then handleInitializing makes exactly four calls: the read, one creation, of
  -- that pod, the clock, and the status write that records the created pod's name, the start time and
  -- the work branch.
  pub handle_initializing-launches :
      (t : AgentTask) (built owned p : Pod) (e : Error) (s s1 s2 : S)
      → v.answer (get_pod (pod_key t)) s ≡ (err e, s1)
      → is_not_found e ≡ true
      → build libs (new_pod_builder t) t ≡ some (ok built)
      → libs.set_controller_reference t built ≡ ok owned
      → v.answer (create_pod owned) s1 ≡ (ok p, s2)
      → calls v (handle_initializing libs t) s
        ≡ get_pod (pod_key t)
          ∷ create_pod owned
          ∷ now
          ∷ update_task_status (launched t p (v.answer now s2).0)
          ∷ []
  unfolding handle_initializing build_pod create_owned create_agent_pod pod_created calls
  handle_initializing-launches t built owned p e s s1 s2 a n b o c =
      rw (a, n, b, o, c)
        (ap (λ l. get_pod (pod_key t) ∷ create_pod owned ∷ now ∷ l)
          (set_phase-calls v
            (with_status t (record t.status {
              pod_name = p.name;
              start_time = some (v.answer now s2).0;
              branch_name = work_branch_for t;
            }))
            running (lit "Agent pod created") (v.answer now s2).1))

  create_mr-merges :
      (t : AgentTask) (token title : Text) (result : PrResult) (s s' : S)
      → truncate t.spec.description 60 ≡ some title
      → run v (create_pull_request libs (request_options t token title)) s ≡ (some (ok result), s')
      → calls v (create_mr libs t token) s
        ≡ calls v (create_pull_request libs (request_options t token title)) s
          ++ (now ∷ update_task_status (merged t result (v.answer now s').0) ∷ [])
  unfolding create_mr mr_created calls
  create_mr-merges t token title result s s' e h =
      rw (e, calls-bind v (create_pull_request libs (request_options t token title)) _ s _ s' h)
        (ap (λ l. calls v (create_pull_request libs (request_options t token title)) s ++ (now ∷ l))
          (set_phase-calls v
            (with_status t (record t.status {
              merge_request_url = result.url;
              end_time = some (v.answer now s').0;
            }))
            succeeded (lit "MR created: " ++ result.url) (v.answer now s').1))

  resolved_some :
      (namespace : Text) (ref : SecretKeyRef) (secret : Secret) (token : Text) (s s1 s2 : S)
      → v.answer (get_secret (record { name = ref.name; namespace = namespace })) s
        ≡ (ok secret, s1)
      → HoldsToken v ref secret token s1 s2
      → (calls v (resolve_secret_value libs namespace (some ref)) s
          ≡ get_secret (record { name = ref.name; namespace = namespace }) ∷ key_calls ref secret)
        × (run v (resolve_secret_value libs namespace (some ref)) s ≡ (some (ok token), s2))
  unfolding resolve_secret_value value_of_key first_key calls run
  resolved_some namespace ref secret token s s1 s2 a (inl (k, l, e)) =
      rw (a, k, l, e, value_of_key) (refl, refl)
  resolved_some namespace ref secret token s s1 s2 a (inr (k, start, key, r, g, l)) =
      rw (a, k, r, g, l, value_of_key, first_key) (refl, refl)

  resolved :
      (t : AgentTask) (o : Option SecretKeyRef) (ref : SecretKeyRef) (secret : Secret)
      (token : Text) (s s1 s2 : S)
      → o ≡ some ref
      → v.answer (get_secret (record { name = ref.name; namespace = t.namespace })) s
        ≡ (ok secret, s1)
      → HoldsToken v ref secret token s1 s2
      → (calls v (resolve_secret_value libs t.namespace o) s
          ≡ get_secret (record { name = ref.name; namespace = t.namespace }) ∷ key_calls ref secret)
        × (run v (resolve_secret_value libs t.namespace o) s ≡ (some (ok token), s2))
  resolved t o ref secret token s s1 s2 e a h =
      subst
        (λ o.
          (calls v (resolve_secret_value libs t.namespace o) s
            ≡ get_secret (record { name = ref.name; namespace = t.namespace })
              ∷ key_calls ref secret)
          × (run v (resolve_secret_value libs t.namespace o) s ≡ (some (ok token), s2)))
        (sym e) (resolved_some t.namespace ref secret token s s1 s2 a h)

  -- If the git credentials refer to a secret that holds a token which is not empty, under the key that
  -- they name or, where they name none, the first of the range over the secret, and the git
  -- client creates the request with that token and the truncated title, then handleCreatingMR reads
  -- the secret, makes the calls of the git client, reads the clock, and writes the status that
  -- records the phase Succeeded, the address of the request and the end time; it makes no other call.
  pub handle_creating_mr-merges :
      (t : AgentTask) (ref : SecretKeyRef) (secret : Secret) (token title : Text)
      (result : PrResult) (s s1 read s2 : S)
      → t.spec.git_credentials_secret_ref ≡ some ref
      → v.answer (get_secret (record { name = ref.name; namespace = t.namespace })) s
        ≡ (ok secret, s1)
      → HoldsToken v ref secret token s1 read
      → is_empty token ≡ false
      → truncate t.spec.description 60 ≡ some title
      → run v (create_pull_request libs (request_options t token title)) read
        ≡ (some (ok result), s2)
      → calls v (handle_creating_mr libs t) s
        ≡ get_secret (record { name = ref.name; namespace = t.namespace })
          ∷ (key_calls ref secret
              ++ (calls v (create_pull_request libs (request_options t token title)) read
                  ++ (now ∷ update_task_status (merged t result (v.answer now s2).0) ∷ [])))
  unfolding handle_creating_mr
  handle_creating_mr-merges t ref secret token title result s s1 read s2 c a k n e h =
      let (x, y) = resolved t t.spec.git_credentials_secret_ref ref secret token s s1 read c a k in
      rw
        (
          calls-bind v (resolve_secret_value libs t.namespace t.spec.git_credentials_secret_ref) _ s
              _ read y,
          x,
          n,
        )
        (ap
          (λ l.
            get_secret (record { name = ref.name; namespace = t.namespace })
            ∷ (key_calls ref secret ++ l))
          (create_mr-merges t token title result read s2 e h))
