-- ===== src/TaskController/Footprints/Initializing.antt =====
-- The footprint of handleInitializing.
use kbrain.Prelude.{some, ◌≡◌, refl, ◌⊎◌, inl, inr, arith}
use kbrain.Prelude.Text.{lit}
use kbrain.Api.{AgentTask, Pod, Time, running}
use kbrain.Effects.{
  Libs, ok, err, Error, Call, get_pod, create_pod, update_task_status, now, Always, Always-call,
  Always-done, Always-if, Always-result, Always-or_panic, Anything, is_not_found, is_already_exists,
}
use kbrain.PodBuilder.Base.{pod_name, work_branch_for}
use kbrain.PodBuilder.Build.{
  PodBuilder, cloud_pod_builder, ollama_pod_builder, new_pod_builder, build,
}
use kbrain.TaskController.Status.{with_status}
use kbrain.TaskController.Initializing.{
  adopt_pod, pod_created, create_agent_pod, create_owned, build_pod, handle_initializing,
}
use kbrain.TaskController.Writes.{moved, Always-set_phase}

-- What is written when a pod of the task's name is found.
abbrev pub adopted : AgentTask → AgentTask
adopted t =
    moved (with_status t (record t.status { pod_name = pod_name t })) running
      (lit "Agent pod is running")

-- What is written at a time when the pod p was created.
abbrev pub launched : AgentTask → Pod → Time → AgentTask
launched t p time =
    moved
      (with_status t (record t.status {
        pod_name = p.name;
        start_time = some time;
        branch_name = work_branch_for t;
      }))
      running (lit "Agent pod created")

-- The pod is the one that the builder of the task's model provider builds, with its owner set.
abbrev pub IsAgentPod : Libs → AgentTask → Pod → Type 0
IsAgentPod libs t p =
    (built : Pod) × (build libs (new_pod_builder t) t ≡ some (ok built))
    × (libs.set_controller_reference t built ≡ ok p)

abbrev pub InitializingCall : Libs → AgentTask → Call → Type 0
InitializingCall libs t (get_pod k) = k ≡ record { name = pod_name t; namespace = t.namespace }
InitializingCall libs t (create_pod p) = IsAgentPod libs t p
InitializingCall libs t now = Unit
InitializingCall libs t (update_task_status u) =
    (u ≡ adopted t) ⊎ ((p : Pod) × (time : Time) × (u ≡ launched t p time))
InitializingCall libs t _ = ⊥

-- Neither builder returns an error.
build_never_errs :
    (libs : Libs) (b : PodBuilder) (t : AgentTask) (e : Error) → build libs b t ≡ some (err e) → ⊥
unfolding build
build_never_errs libs cloud_pod_builder t e h = cc
build_never_errs libs ollama_pod_builder t e h = ground arith

module _ (libs : Libs) (t : AgentTask) where
  adopt_pod-calls : Always (InitializingCall libs t) Anything (adopt_pod t)
  unfolding adopt_pod
  adopt_pod-calls = Always-set_phase _ _ _ (inl refl)

  pod_created-calls : (p : Pod) → Always (InitializingCall libs t) Anything (pod_created t p)
  unfolding pod_created
  pod_created-calls p = Always-call tt λ time. Always-set_phase _ _ _ (inr (p, time, refl))

  create_agent_pod-calls :
      (p : Pod)
      → IsAgentPod libs t p
      → Always (InitializingCall libs t) Anything (create_agent_pod t p)
  unfolding create_agent_pod
  create_agent_pod-calls p h = Always-call h λ r.
      Always-result r (λ created _. pod_created-calls created)
        (λ e _. Always-if (is_already_exists e) (λ _. adopt_pod-calls) (λ _. Always-done tt))

  create_owned-calls :
      (built : Pod)
      → build libs (new_pod_builder t) t ≡ some (ok built)
      → Always (InitializingCall libs t) Anything (create_owned libs t built)
  unfolding create_owned
  create_owned-calls built h =
      Always-result (libs.set_controller_reference t built)
        (λ owned e. create_agent_pod-calls owned (built, h, e)) (λ e _. Always-done tt)

  build_pod-calls : Always (InitializingCall libs t) Anything (build_pod libs t)
  unfolding build_pod
  build_pod-calls = Always-or_panic (build libs (new_pod_builder t) t) _ λ r h.
      Always-result r (λ pod e. create_owned-calls pod (cc h))
        (λ e f. absurd (build_never_errs libs (new_pod_builder t) t e (cc)))

  pub handle_initializing-calls :
      Always (InitializingCall libs t) Anything (handle_initializing libs t)
  unfolding handle_initializing
  handle_initializing-calls = Always-call refl λ r.
      Always-result r (λ p _. adopt_pod-calls)
        (λ e _. Always-if (is_not_found e) (λ _. build_pod-calls) (λ _. Always-done tt))
