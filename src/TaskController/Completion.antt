-- ===== src/TaskController/Completion.antt =====
-- A task from its creation to its merge request, on a cluster and a git host that cooperate.
use kbrain.Prelude.{false, none, ◌≡◌, ap, ◌∙◌, ◌⊎◌}
use kbrain.Prelude.Text.{lit, is_empty, text_eq}
use kbrain.Api.{
  AgentTask, unset, pending, initializing, running, creating_mr, succeeded, Pod, pod_succeeded,
}
use kbrain.Effects.{Libs, Key, ok, get_pod, now, Server}
use kbrain.TaskController.Writes.{moved}
use kbrain.TaskController.Footprints.Pending.{Ready}
use kbrain.TaskController.Footprints.Initializing.{launched}
use kbrain.TaskController.Footprints.CreatingMr.{merged}
use kbrain.TaskController.Settled.{IsSettledIn}
use kbrain.TaskController.Storing.{Stores}
use kbrain.TaskController.Stages.{
  CanLaunch, CanMerge, FinalizerLaws, IsSettledIn-meta, after, after-starts, after-launches,
  after-completes, after-merges,
}

-- The task when it has been started, and when its pod is done.
abbrev started : AgentTask → AgentTask
started t = moved t initializing (lit "Validated, creating agent pod")

abbrev completed : AgentTask → AgentTask
completed t = moved t creating_mr (lit "Agent completed, creating merge request")

module _ {S : Type 0} (v : Server S) (libs : Libs) (task_of : S → AgentTask)
    (stores : Stores v task_of) (laws : FinalizerLaws libs) (k : Key) where
  reaches_running :
      (s : S)
      → IsSettledIn libs (task_of s)
      → ((task_of s).status.phase ≡ unset) ⊎ ((task_of s).status.phase ≡ pending)
      → Ready (task_of s)
      → ((task_of s).spec.api_key_secret_ref ≡ none)
        ⊎ (text_eq (task_of s).spec.model_provider (lit "cloud") ≡ false)
      → (l : CanLaunch v libs (task_of (after v libs k s)) (after v libs k s))
      → task_of (after v libs k (after v libs k s))
        ≡ launched (started (task_of s)) l.created (v.answer now l.made).0
  reaches_running s h p r a l =
      let e = after-starts v libs task_of stores laws k s h p r a in
      let g = IsSettledIn-meta libs laws (task_of s) _ (ap (λ t. t.meta) e) h in
      after-launches v libs task_of stores laws k (after v libs k s) g (ap (λ t. t.status.phase) e)
        l
      ∙ ap (λ t. launched t l.created (v.answer now l.made).0) e

  reaches_end :
      (w w1 : S) (pod : Pod)
      → IsSettledIn libs (task_of w)
      → (task_of w).status.phase ≡ running
      → is_empty (task_of w).status.pod_name ≡ false
      → v.answer
          (get_pod
            (record { name = (task_of w).status.pod_name; namespace = (task_of w).namespace }))
          w
        ≡ (ok pod, w1)
      → pod.status.phase ≡ pod_succeeded
      → (m : CanMerge v libs (task_of (after v libs k w)) (after v libs k w))
      → task_of (after v libs k (after v libs k w))
        ≡ merged (completed (task_of w)) m.result (v.answer now m.asked).0
  reaches_end w w1 pod h p n a q m =
      let e = after-completes v libs task_of stores laws k w w1 pod h p n a q in
      let g = IsSettledIn-meta libs laws (task_of w) _ (ap (λ t. t.meta) e) h in
      after-merges v libs task_of stores laws k (after v libs k w) g (ap (λ t. t.status.phase) e) m
      ∙ ap (λ t. merged t m.result (v.answer now m.asked).0) e

  -- On a cluster that stores what is written, four runs of Reconcile take a task that has not begun,
  -- lives, has its finalizer, passes validation, has a slot where it needs one and needs no API key
  -- secret to its end: if after the first run its pod can be created, if the pod has succeeded when
  -- the third run begins, and if after that run the git credentials refer to a secret with a token that
  -- is not empty, under the key that they name or, where they name none, the first of the range over the
  -- secret, and the git host creates the request, then at the end the task has succeeded with the address of that request,
  -- and its metadata and spec are as they were.
  pub reconcile-completes :
      (s w w1 : S) (pod : Pod)
      → IsSettledIn libs (task_of s)
      → ((task_of s).status.phase ≡ unset) ⊎ ((task_of s).status.phase ≡ pending)
      → Ready (task_of s)
      → ((task_of s).spec.api_key_secret_ref ≡ none)
        ⊎ (text_eq (task_of s).spec.model_provider (lit "cloud") ≡ false)
      → (l : CanLaunch v libs (task_of (after v libs k s)) (after v libs k s))
      → task_of w ≡ task_of (after v libs k (after v libs k s))
      → v.answer (get_pod (record { name = l.created.name; namespace = (task_of s).namespace })) w
        ≡ (ok pod, w1)
      → pod.status.phase ≡ pod_succeeded
      → (m : CanMerge v libs (task_of (after v libs k w)) (after v libs k w))
      → let u = task_of (after v libs k (after v libs k w)) in
        (u.status.phase ≡ succeeded)
        × (u.status.merge_request_url ≡ m.result.url)
        × (u.meta ≡ (task_of s).meta)
        × (u.spec ≡ (task_of s).spec)
  reconcile-completes s w w1 pod h p r a l same found q m =
      let e = same ∙ reaches_running s h p r a l in
      let key =
        ap
          (λ t. v.answer (get_pod (record { name = t.status.pod_name; namespace = t.namespace })) w)
          e in
      let f =
        reaches_end w w1 pod
          (IsSettledIn-meta libs laws (task_of s) (task_of w) (ap (λ t. t.meta) e) h)
          (ap (λ t. t.status.phase) e) (ap (λ t. is_empty t.status.pod_name) e ∙ l.named)
          (key ∙ found) q m in
      (
        ap (λ t. t.status.phase) f,
        ap (λ t. t.status.merge_request_url) f,
        ap (λ t. t.meta) f ∙ ap (λ t. t.meta) e,
        ap (λ t. t.spec) f ∙ ap (λ t. t.spec) e,
      )
