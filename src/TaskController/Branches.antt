-- ===== src/TaskController/Branches.antt =====
-- The branches of the pod and of the merge request are the same.
use kbrain.Prelude.{
  ◌⊎◌, inl, inr, false, Option, none, some, List, [], ◌∷◌, ◌≡◌, refl, All, arith, if◌then◌else◌,
}
use kbrain.Prelude.Text.{Text, lit, text_eq}
use kbrain.Api.{AgentTask, Pod, Time, EnvVar, EnvValue, value}
use kbrain.Effects.{
  Libs, ok, Call, now, update_task_status, Always, Always-call, Anything, MayCall, Always-MayCall,
}
use kbrain.PodBuilder.Base.{
  work_branch, work_branch_for, target_branch, common_agent_env, agent_container,
}
use kbrain.PodBuilder.Cloud.{build_cloud}
use kbrain.PodBuilder.Ollama.{ollama_pod, ollama_sidecar}
use kbrain.PodBuilder.Build.{PodBuilder, build}
use kbrain.PodBuilder.Cases.{build_elim}
use kbrain.TaskController.CreatingMr.{source_branch, request_target}
use kbrain.TaskController.Initializing.{pod_created}
use kbrain.TaskController.Writes.{Always-set_phase}
use kbrain.TaskController.Footprints.Initializing.{launched}

-- The first variable of a name.
unfoldable pub env_value : Text → List EnvVar → Option EnvValue
unfolding text_eq
env_value name [] = none
env_value name (e ∷ env) = if text_eq e.name name then some e.source else env_value name env

-- What is written once the pod p is created, at any time.
abbrev RecordCall : AgentTask → Pod → Call → Type 0
RecordCall t p now = Unit
RecordCall t p (update_task_status u) = (time : Time) × (u ≡ launched t p time)
RecordCall t p _ = ⊥

pod_created-RecordCall :
    (t : AgentTask) (p : Pod) → Always (RecordCall t p) Anything (pod_created t p)
unfolding pod_created
pod_created-RecordCall t p = Always-call tt λ time. Always-set_phase _ _ _ (time, refl)

source_branch-launched :
    (t : AgentTask) (p : Pod) (time : Time) → source_branch (launched t p time) ≡ work_branch t
unfolding source_branch work_branch_for work_branch
source_branch-launched t p time = ground arith

request_target-launched :
    (t : AgentTask) (p : Pod) (time : Time) → request_target (launched t p time) ≡ target_branch t
unfolding request_target target_branch
request_target-launched t p time = refl

-- The agent of a pod is told the work branch and the target branch of its task.
abbrev AgentKnows : AgentTask → Pod → Type 0
AgentKnows t p =
    All
      (λ c.
        (text_eq c.name (lit "agent") ≡ false)
        ⊎ ((env_value (lit "GIT_BRANCH") c.env ≡ some (value (work_branch t)))
            × (env_value (lit "TARGET_BRANCH") c.env ≡ some (value (target_branch t)))))
      p.spec.containers

build-AgentKnows :
    (libs : Libs) (b : PodBuilder) (t : AgentTask) (p : Pod)
    → build libs b t ≡ some (ok p)
    → AgentKnows t p
unfolding build_cloud ollama_pod ollama_sidecar agent_container common_agent_env env_value lit
build-AgentKnows libs b t p h =
    build_elim libs t (λ _ q. AgentKnows t q) (inr (refl, refl), tt)
      (λ limits. (inl refl, (inr (refl, refl), tt))) b p h

-- Each container of a built pod that is named agent is told the branches that the merge request uses,
-- for every status that may be written once the creation of a pod is answered: GIT_BRANCH is the source
-- of the request, and TARGET_BRANCH its target.
pub branches_agree :
    (libs : Libs) (b : PodBuilder) (t u : AgentTask) (p created : Pod)
    → build libs b t ≡ some (ok p)
    → MayCall (update_task_status u) (pod_created t created)
    → All
        (λ c.
          (text_eq c.name (lit "agent") ≡ false)
          ⊎ ((env_value (lit "GIT_BRANCH") c.env ≡ some (value (source_branch u)))
              × (env_value (lit "TARGET_BRANCH") c.env ≡ some (value (request_target u)))))
        p.spec.containers
branches_agree libs b t u p created h w =
    let (time, e) =
      Always-MayCall (RecordCall t created) (update_task_status u)
        (pod_created-RecordCall t created) w in
    rw (e, source_branch-launched t created time, request_target-launched t created time)
      (build-AgentKnows libs b t p h)
