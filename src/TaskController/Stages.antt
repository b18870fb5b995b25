-- ===== src/TaskController/Stages.antt =====
-- What a run of Reconcile makes of the stored task, on a cluster and a git host that cooperate.
use kbrain.Prelude.{
  true, false, none, some, List, [], ◌∷◌, ◌≡◌, ◌++◌, refl, Bool-cases, ap, ◌∙◌, ◌⊎◌, inl, inr,
}
use kbrain.Prelude.Text.{Text, lit, is_empty, text_eq}
use kbrain.Api.{
  AgentTask, AgentTaskPhase, unset, pending, initializing, running, creating_mr, Pod, pod_succeeded,
  SecretKeyRef, Secret,
}
use kbrain.Effects.{
  Libs, Key, Error, ok, err, is_not_found, Call, update_task, get_pod, get_secret, create_pod, now,
  update_task_status, Server, run, calls, Always-weaken,
}
use kbrain.PodBuilder.Build.{new_pod_builder, build}
use kbrain.GitOps.Client.{PrOptions, PrResult, create_pull_request}
use kbrain.GitOps.Requests.{RequestCall, create_pull_request-calls}
use kbrain.TaskController.Status.{with_status}
use kbrain.TaskController.Deletion.{task_finalizer}
use kbrain.TaskController.Title.{truncate}
use kbrain.TaskController.CreatingMr.{request_options}
use kbrain.TaskController.Running.{on_pod_phase, handle_running}
use kbrain.TaskController.Reconcile.{dispatch, reconcile}
use kbrain.TaskController.Writes.{moved}
use kbrain.TaskController.Footprints.Pending.{Ready}
use kbrain.TaskController.Footprints.Initializing.{launched}
use kbrain.TaskController.Footprints.CreatingMr.{merged}
use kbrain.TaskController.StatusCalls.{set_phase-calls}
use kbrain.TaskController.Progress.{
  HoldsToken, key_calls, pod_key, handle_pending-starts, handle_initializing-launches,
  handle_creating_mr-merges,
}
use kbrain.TaskController.Settled.{IsSettledIn}
use kbrain.TaskController.Storing.{
  NoTaskWrite, calls-written, Stores, written, written-append, run-written, reconcile-dispatch,
}

-- No pod of the task's name is there, one can be built and owned, and the cluster creates it.
pub record CanLaunch {S : Type 0} (v : Server S) (libs : Libs) (t : AgentTask) (s : S)
    : Type 0 where
  pub built : Pod
  pub owned : Pod
  pub created : Pod
  pub missing : Error
  pub looked : S
  pub made : S
  pub not_there : v.answer (get_pod (pod_key t)) s ≡ (err missing, looked)
  pub is_missing : is_not_found missing ≡ true
  pub builds : build libs (new_pod_builder t) t ≡ some (ok built)
  pub owns : libs.set_controller_reference t built ≡ ok owned
  pub creates : v.answer (create_pod owned) looked ≡ (ok created, made)
  pub named : is_empty created.name ≡ false

-- The git credentials hold a token, under the key that they name or the first of a range, and the git host creates the request.
pub record CanMerge {S : Type 0} (v : Server S) (libs : Libs) (t : AgentTask) (s : S) : Type 0 where
  pub ref : SecretKeyRef
  pub secret : Secret
  pub token : Text
  pub title : Text
  pub result : PrResult
  pub fetched : S
  pub read : S
  pub asked : S
  pub refers : t.spec.git_credentials_secret_ref ≡ some ref
  pub reads :
      v.answer (get_secret (record { name = ref.name; namespace = t.namespace })) s
      ≡ (ok secret, fetched)
  pub holds : HoldsToken v ref secret token fetched read
  pub has_token : is_empty token ≡ false
  pub titled : truncate t.spec.description 60 ≡ some title
  pub requests :
      run v (create_pull_request libs (request_options t token title)) read
      ≡ (some (ok result), asked)

-- `ContainsFinalizer` reads nothing but the finalizers.
pub record FinalizerLaws (libs : Libs) : Type 0 where
  pub reads_meta :
      (t u : AgentTask) (f : Text)
      → u.meta ≡ t.meta
      → libs.contains_finalizer u f ≡ libs.contains_finalizer t f

pub IsSettledIn-meta :
    (libs : Libs) (laws : FinalizerLaws libs) (t u : AgentTask)
    → u.meta ≡ t.meta
    → IsSettledIn libs t
    → IsSettledIn libs u
IsSettledIn-meta libs laws t u e h = record {
  lives = rw e h.lives;
  finalized = laws.reads_meta t u task_finalizer e ∙ h.finalized;
}

module _ {S : Type 0} (v : Server S) (libs : Libs) where
  handle_running-completes :
      (t : AgentTask) (pod : Pod) (s s1 : S)
      → is_empty t.status.pod_name ≡ false
      → v.answer (get_pod (record { name = t.status.pod_name; namespace = t.namespace })) s
        ≡ (ok pod, s1)
      → pod.status.phase ≡ pod_succeeded
      → calls v (handle_running libs t) s
        ≡ get_pod (record { name = t.status.pod_name; namespace = t.namespace })
          ∷ update_task_status (moved t creating_mr (lit "Agent completed, creating merge request"))
          ∷ []
  unfolding handle_running on_pod_phase calls
  handle_running-completes t pod s s1 n a p =
      rw (n, a, p)
        (ap (◌∷◌ (get_pod (record { name = t.status.pod_name; namespace = t.namespace })))
          (set_phase-calls v t _ _ s1))

RequestCall-NoTaskWrite :
    (libs : Libs) (o : PrOptions) (c : Call) → RequestCall libs o c → NoTaskWrite c
RequestCall-NoTaskWrite libs o (update_task_status u) h = absurd h
RequestCall-NoTaskWrite libs o (update_task u) h = absurd h
RequestCall-NoTaskWrite libs o _ h = tt

-- The calls of the git client leave the task.
request-written :
    {S : Type 0} (v : Server S) (libs : Libs) (t : AgentTask) (o : PrOptions) (s : S)
    → written t (calls v (create_pull_request libs o) s) ≡ t
request-written v libs t o s =
    calls-written v t (create_pull_request libs o) s (
      Always-weaken (RequestCall-NoTaskWrite libs o) (λ _ _. tt) (create_pull_request-calls libs o))

-- Nor does the range over the secret change it.
key_calls-written :
    (t : AgentTask) (ref : SecretKeyRef) (secret : Secret) (cs : List Call)
    → written t (key_calls ref secret ++ cs) ≡ written t cs
unfolding written
key_calls-written t ref secret cs = elim (Bool-cases (is_empty ref.key)) [
  | inl e ↦ rw e refl
  | inr e ↦ rw e refl
]

-- The state after a run of Reconcile.
abbrev pub after : {S : Type 0} → Server S → Libs → Key → S → S
after v libs k s = (run v (reconcile libs k) s).1

module _ {S : Type 0} (v : Server S) (libs : Libs) (task_of : S → AgentTask)
    (stores : Stores v task_of) (laws : FinalizerLaws libs) (k : Key) where
  after-written :
      (s : S) (p : AgentTaskPhase) (cs : List Call)
      → IsSettledIn libs (task_of s)
      → (task_of s).status.phase ≡ p
      → calls v (dispatch libs p (task_of s)) s ≡ cs
      → task_of (after v libs k s) ≡ written (task_of s) cs
  after-written s p cs h e c =
      ap (λ r. task_of r.1) (reconcile-dispatch v task_of stores libs k s h)
      ∙ run-written v task_of stores (dispatch libs (task_of s).status.phase (task_of s)) s
      ∙ ap (written (task_of s)) (ap (λ q. calls v (dispatch libs q (task_of s)) s) e ∙ c)

  pub after-starts :
      (s : S)
      → IsSettledIn libs (task_of s)
      → ((task_of s).status.phase ≡ unset) ⊎ ((task_of s).status.phase ≡ pending)
      → Ready (task_of s)
      → ((task_of s).spec.api_key_secret_ref ≡ none)
        ⊎ (text_eq (task_of s).spec.model_provider (lit "cloud") ≡ false)
      → task_of (after v libs k s)
        ≡ moved (task_of s) initializing (lit "Validated, creating agent pod")
  unfolding dispatch written
  after-starts s h (inl e) r a =
      after-written s unset _ h e (handle_pending-starts v libs (task_of s) s r a)
  after-starts s h (inr e) r a =
      after-written s pending _ h e (handle_pending-starts v libs (task_of s) s r a)

  pub after-launches :
      (s : S)
      → IsSettledIn libs (task_of s)
      → (task_of s).status.phase ≡ initializing
      → (l : CanLaunch v libs (task_of s) s)
      → task_of (after v libs k s) ≡ launched (task_of s) l.created (v.answer now l.made).0
  unfolding dispatch written
  after-launches s h e l = after-written s initializing _ h e (
      handle_initializing-launches v libs (task_of s) l.built l.owned l.created l.missing s l.looked
        l.made l.not_there l.is_missing l.builds l.owns l.creates)

  pub after-completes :
      (s s1 : S) (pod : Pod)
      → IsSettledIn libs (task_of s)
      → (task_of s).status.phase ≡ running
      → is_empty (task_of s).status.pod_name ≡ false
      → v.answer
          (get_pod
            (record { name = (task_of s).status.pod_name; namespace = (task_of s).namespace }))
          s
        ≡ (ok pod, s1)
      → pod.status.phase ≡ pod_succeeded
      → task_of (after v libs k s)
        ≡ moved (task_of s) creating_mr (lit "Agent completed, creating merge request")
  unfolding dispatch written
  after-completes s s1 pod h e n a p =
      after-written s running _ h e (handle_running-completes v libs (task_of s) pod s s1 n a p)

  pub after-merges :
      (s : S)
      → IsSettledIn libs (task_of s)
      → (task_of s).status.phase ≡ creating_mr
      → (m : CanMerge v libs (task_of s) s)
      → task_of (after v libs k s) ≡ merged (task_of s) m.result (v.answer now m.asked).0
  unfolding dispatch written
  after-merges s h e m =
      let o = request_options (task_of s) m.token m.title in
      after-written s creating_mr _ h e (
        handle_creating_mr-merges v libs (task_of s) m.ref m.secret m.token m.title m.result s
          m.fetched m.read m.asked m.refers m.reads m.holds m.has_token m.titled m.requests)
      ∙ key_calls-written (task_of s) m.ref m.secret _
      ∙ written-append (task_of s) (calls v (create_pull_request libs o) m.read) _
      ∙ ap (λ t. with_status t (merged (task_of s) m.result (v.answer now m.asked).0).status)
          (request-written v libs (task_of s) o m.read)
