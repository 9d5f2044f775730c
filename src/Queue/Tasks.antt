-- ===== src/Queue/Tasks.antt =====
-- The client side of internal/queue/queue.go. Redis and asynq are outside: the environment says
-- which enqueue calls they refuse, and the tasks they accept are listed.
use vibls_assignment.Common.{
  ℕ, String, Bool, true, false, Option, none, some, List, [], ◌∷◌, ◌++◌, if◌then◌else◌,
}

abbrev pub type_deploy_job : String
type_deploy_job = "job:deploy"

abbrev pub type_learning_analysis : String
type_learning_analysis = "learning:analyze"

-- asynq.NewTask with its options; an option that is not given is `none`.
pub record Task : Type 0 where
  pub type_name : String
  pub payload : Option String
  pub max_retry : Option ℕ
  pub timeout_minutes : Option ℕ
  pub task_id : Option String

pub record TaskQueue : Type 0 where
  pub tasks : List Task
  pub refusals : List Bool

abbrev pub next_refusal : List Bool → Bool
next_refusal [] = false
next_refusal (b ∷ bs) = b

abbrev pub later_refusals : List Bool → List Bool
later_refusals [] = []
later_refusals (b ∷ bs) = bs

-- client.EnqueueContext: true if the call returned no error.
abbrev pub enqueue : Task → TaskQueue → Bool × TaskQueue
enqueue task q =
    if next_refusal q.refusals
    then (false, record q { refusals = later_refusals q.refusals })
    else (true, record { tasks = q.tasks ++ task ∷ []; refusals = later_refusals q.refusals })

unfoldable pub deploy_task : String → String → Task
deploy_task job_id payload = record {
  type_name = type_deploy_job;
  payload = some payload;
  max_retry = some 3;
  timeout_minutes = some 30;
  task_id = some job_id;
}

unfoldable pub enqueue_deploy_job : String → String → TaskQueue → Bool × TaskQueue
enqueue_deploy_job job_id payload q = enqueue (deploy_task job_id payload) q

unfoldable pub enqueue_learning_task : TaskQueue → Bool × TaskQueue
enqueue_learning_task q =
    enqueue
      (record {
        type_name = type_learning_analysis;
        payload = none;
        max_retry = none;
        timeout_minutes = none;
        task_id = none;
      })
      q
