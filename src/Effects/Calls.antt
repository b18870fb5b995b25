-- ===== src/Effects/Calls.antt =====
-- The calls of the controllers on the Kubernetes API, the clock, Go's map iteration and the git
-- host, and what each one answers.
use kbrain.Prelude.{ℕ, List}
use kbrain.Prelude.Text.{Text}
use kbrain.Api.{Dict, Time, AgentTask, AgentPool, Pod, Secret}
use kbrain.Effects.Errors.{Result}

-- `types.NamespacedName`.
pub record Key : Type 0 where
  pub name : Text
  pub namespace : Text

-- The options of `List`: the namespace, and a label selector or a field that must match.
pub data ListFilter : Type 0 where
  matching_labels : Text → ListFilter
  matching_field : Text → Text → ListFilter

pub record ListOptions : Type 0 where
  pub namespace : Text
  pub filter : ListFilter

pub record HttpRequest : Type 0 where
  pub method : Text
  pub url : Text
  pub headers : Dict
  pub body : Text

pub record HttpResponse : Type 0 where
  pub status_code : ℕ
  pub body : Text

pub data Call : Type 0 where
  get_task get_pool get_pod get_secret : Key → Call
  list_tasks : ListOptions → Call
  update_task update_task_status : AgentTask → Call
  update_pool_status : AgentPool → Call
  create_pod delete_pod : Pod → Call
  now : Call
  -- where a `range` over a map of so many keys begins
  range_start : ℕ → Call
  http_do : HttpRequest → Call

-- An update answers with the object as the server stored it, which the client writes back into
-- its argument; so does a creation.
abbrev pub Answer : Call → Type 0
Answer (get_task k) = Result AgentTask
Answer (get_pool k) = Result AgentPool
Answer (get_pod k) = Result Pod
Answer (get_secret k) = Result Secret
Answer (list_tasks o) = Result (List AgentTask)
Answer (update_task t) = Result AgentTask
Answer (update_task_status t) = Result AgentTask
Answer (update_pool_status p) = Result AgentPool
Answer (create_pod p) = Result Pod
Answer (delete_pod p) = Result (Unit {0})
Answer now = Time
Answer (range_start n) = ℕ
Answer (http_do r) = Result HttpResponse
