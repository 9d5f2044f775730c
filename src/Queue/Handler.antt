-- ===== src/Queue/Handler.antt =====
-- internal/queue/handler.go: middlewares round a handler of tasks. A handler returns nil, returns
-- an error, or panics; the log lines are left out.
use vibls_assignment.Common.{
  ℕ, zero, suc, ◌≤◌, String, ◌≡◌, refl, ap, ◌∙◌, ◌≢◌, ◌⊎◌, inl, inr, Option, none, some, List, [],
  ◌∷◌, arith, Option-cases, length, get_elem?,
}
use vibls_assignment.Common.Text.{cat}
use vibls_assignment.Queue.Tasks.{Task}

pub data HandlerResult (S : Type 0) : Type 0 where
  returned : Option String → S → HandlerResult S
  panicked : String → S → HandlerResult S

-- asynq.Handler, over the state that a handler acts on.
abbrev pub TaskHandler : Type 0 → Type 0
TaskHandler S = Task → S → HandlerResult S

abbrev pub Middleware : Type 0 → Type 0
Middleware S = TaskHandler S → TaskHandler S

module _ {S : Type 0} where
  -- The loop counts the index down: the last middleware is put on first.
  unfoldable pub wrap_from : ℕ → List (Middleware S) → TaskHandler S → TaskHandler S
  wrap_from zero middlewares handler = handler
  wrap_from (suc i) middlewares handler = elim (get_elem? middlewares i) [
    | none ↦ handler
    | some m ↦ wrap_from i middlewares (m handler)
  ]

  unfoldable pub chain_middleware : TaskHandler S → List (Middleware S) → TaskHandler S
  unfolding wrap_from
  chain_middleware handler middlewares = wrap_from (length middlewares) middlewares handler

  unfoldable pub logging_middleware : Middleware S
  logging_middleware next task s = next task s

  unfoldable pub metrics_middleware : Middleware S
  metrics_middleware next task s = next task s

  abbrev recovered : HandlerResult S → HandlerResult S
  recovered (returned e s) = returned e s
  recovered (panicked r s) = returned (some (cat "task panicked: " r)) s

  unfoldable pub recovery_middleware : Middleware S
  recovery_middleware next task s = recovered (next task s)

  abbrev payload_then :
      (String → S → HandlerResult S) → Option String ⊎ String → S → HandlerResult S
  payload_then handle (inl e) s = returned e s
  payload_then handle (inr job_id) s = handle job_id s

  -- What RegisterDeployJobHandler registers. `decode` is json.Unmarshal of the task's payload:
  -- the job's id, or the text of the error.
  unfoldable pub register_deploy_job_handler :
      (Option String → Option String ⊎ String)
      → (String → S → HandlerResult S)
      → List (Middleware S)
      → TaskHandler S
  unfolding chain_middleware
  register_deploy_job_handler decode handle middlewares =
      chain_middleware (λ task s. payload_then handle (decode task.payload) s) middlewares

  wrap_from-cons :
      (k : ℕ) (m : Middleware S) (ms : List (Middleware S)) (handler : TaskHandler S)
      → k ≤ length ms
      → wrap_from (suc k) (m ∷ ms) handler ≡ m (wrap_from k ms handler)
  unfolding wrap_from
  wrap_from-cons zero m ms handler h = refl
  wrap_from-cons (suc k) m ms handler h = elim (Option-cases (get_elem? ms k)) [
    | inl missing ↦ absurd (get_elem?-ne-none k ms h missing)
    | inr (m', here) ↦ rw (here, wrap_from) (wrap_from-cons k m ms (m' handler) (omega arith))
  ]
    where
      get_elem?-ne-none :
          (k : ℕ) (ms : List (Middleware S)) → suc k ≤ length ms → get_elem? ms k ≢ none
      get_elem?-ne-none k [] h = absurd (omega arith)
      get_elem?-ne-none zero (m ∷ ms) h = λ e. cc
      get_elem?-ne-none (suc k) (m ∷ ms) h = get_elem?-ne-none k ms (omega arith)

  -- The middlewares applied from the outside in.
  abbrev pub nested : TaskHandler S → List (Middleware S) → TaskHandler S
  nested handler [] = handler
  nested handler (m ∷ ms) = m (nested handler ms)

  -- The loop that counts down puts the first middleware outermost, and every one in its place.
  pub chain_middleware-nested :
      (ms : List (Middleware S)) (handler : TaskHandler S)
      → chain_middleware handler ms ≡ nested handler ms
  unfolding chain_middleware
  chain_middleware-nested [] handler = refl
  chain_middleware-nested (m ∷ ms) handler =
      wrap_from-cons (length ms) m ms handler (omega arith)
      ∙ ap m (chain_middleware-nested ms handler)
