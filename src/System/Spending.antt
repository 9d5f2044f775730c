-- ===== src/System/Spending.antt =====
-- How many statements the operations of internal/models/db.go make. Each statement uses up one turn
-- of the environment.
use vibls_assignment.Common.{
  ℕ, zero, suc, ◌+◌, ◌≤◌, String, ◌≡◌, refl, sym, ap, ◌∙◌, inl, inr, none, some, List, [], ◌∷◌,
  arith, ◌==◌, Bool-cases, length, drop, find_first,
}
use vibls_assignment.Job.{JobStatus, PipelineStage, Job}
use vibls_assignment.Store.Rows.{
  Tables, Platform, no_rows, Result, ok, err, Turn, World, first_turn, later_turns, M, statement,
  statement_tx, ◌>>=◌, return,
}
use vibls_assignment.Store.Jobs.{
  of_option, is_deployment_of, get_active_deployment, insert_job, create_job_tx, select_job,
  get_job, set_status, insert_event, update_job_status,
}
use vibls_assignment.Store.Keys.{get_idempotency_key, insert_key, create_idempotency_key_tx}
use vibls_assignment.Store.Listing.{
  ListJobsOptions, build_query, placeholder, number_of, selected, data_query, scan_jobs, count_jobs,
  fetch_jobs, all_args, list_jobs,
}
use vibls_assignment.System.Transaction.{create_job_tx-cases}

-- From some turns to later ones, by n statements at most.
abbrev pub Spent : ℕ → List Turn → List Turn → Type 0
Spent n turns rest = (k : ℕ) × (k ≤ n) × (rest ≡ drop k turns)

drop-later : (k : ℕ) (turns : List Turn) → later_turns (drop k turns) ≡ drop (suc k) turns
drop-later zero [] = refl
drop-later zero (t ∷ turns) = refl
drop-later (suc k) [] = refl
drop-later (suc k) (t ∷ turns) = drop-later k turns

drop_nil : (n : ℕ) → drop {A = Turn} n [] ≡ []
drop_nil zero = refl
drop_nil (suc n) = refl

drop-drop : (k m : ℕ) (turns : List Turn) → drop m (drop k turns) ≡ drop (k + m) turns
drop-drop zero m turns = ap (λ (i : ℕ). drop i turns) (omega arith)
drop-drop (suc k) m [] = drop_nil m ∙ sym (drop_nil (suc k + m))
drop-drop (suc k) m (t ∷ turns) =
    let same : suc (k + m) ≡ suc k + m = omega arith in
    drop-drop k m turns ∙ ap (λ (i : ℕ). drop i (t ∷ turns)) same

pub Spent-none : (n : ℕ) (turns : List Turn) → Spent n turns turns
Spent-none n turns = (0, omega arith, refl)

pub Spent-one : (n : ℕ) (turns : List Turn) → Spent (suc n) turns (later_turns turns)
Spent-one n turns = (1, omega arith, drop-later 0 turns)

pub Spent-trans :
    {m n : ℕ} {turns more rest : List Turn}
    → Spent m turns more
    → Spent n more rest
    → Spent (m + n) turns rest
Spent-trans {turns = turns} (k, few, e) (k', few', e') =
    (k + k', omega arith, e' ∙ ap (drop k') e ∙ drop-drop k k' turns)

pub Spent-at_most :
    {m n : ℕ} {turns rest : List Turn} → m ≤ n → Spent m turns rest → Spent n turns rest
Spent-at_most h (k, few, e) = (k, omega arith, e)

abbrev pub Spends : {A : Type 0} → ℕ → (World → A × World) → Type 0
Spends n m = (w : World) → Spent n w.turns (m w).1.turns

pub Spends-statement : {A : Type 0} (run : Tables → Result A × Tables) → Spends 1 (statement run)
Spends-statement run w = elim (Bool-cases (first_turn w.turns).fails) [
  | inl failed ↦ rw failed (Spent-one 0 w.turns)
  | inr works ↦ rw works (Spent-one 0 w.turns)
]

pub Spends-statement_tx :
    {A : Type 0} (run : Tables → Result A × Tables) → Spends 1 (statement_tx run)
Spends-statement_tx run w = elim (Bool-cases (first_turn w.turns).fails) [
  | inl failed ↦ rw failed (Spent-one 0 w.turns)
  | inr works ↦ rw works (Spent-one 0 w.turns)
]

pub Spends-bind :
    {A B : Type 0} (i n : ℕ) (m : M A) (f : A → M B)
    → Spends i m
    → ((a : A) → Spends n (f a))
    → Spends (i + n) (◌>>=◌ m f)
Spends-bind {A = A} {B = B} i n m f h hf w = go (m w).0
  where
    go :
        (r : Result A)
        → Spent
            (i + n)
            w.turns
            (elim r as (λ r. Result B × World) [
              | err e ↦ (err e, (m w).1)
              | ok a ↦ f a (m w).1
            ]).1.turns
    go (ok a) = Spent-trans (h w) (hf a (m w).1)
    go (err e) = Spent-at_most (omega arith) (h w)

module _ (p : Platform) where
  pub update_job_status-Spends :
      (id : String) (status : JobStatus) (stage : PipelineStage) (message : String)
      → Spends 2 (update_job_status p id status stage message)
  unfolding update_job_status
  update_job_status-Spends id status stage message =
      Spends-bind 1 1 (statement (set_status p id status stage message))
        (λ u w. (ok tt, (statement (insert_event p id none (some stage) status message none) w).1))
        (Spends-statement (set_status p id status stage message))
        (λ u. Spends-statement (insert_event p id none (some stage) status message none))

  pub get_job-Spends : (id : String) → Spends 1 (get_job p id)
  unfolding get_job select_job
  get_job-Spends id = Spends-statement (select_job p id)

  pub get_idempotency_key-Spends : (hash : String) → Spends 1 (get_idempotency_key hash)
  unfolding get_idempotency_key
  get_idempotency_key-Spends hash =
      Spends-statement (λ t. (of_option no_rows (find_first (λ k. k.hash == hash) t.keys), t))

  pub get_active_deployment-Spends :
      (repo_url branch namespace : String)
      → Spends 1 (get_active_deployment repo_url branch namespace)
  unfolding get_active_deployment
  get_active_deployment-Spends repo_url branch namespace = Spends-statement λ t. (
    elim (find_first (is_deployment_of repo_url branch namespace) t.jobs) [
      | none ↦ err no_rows
      | some r ↦ ok (r.id, r.status)
    ],
    t,
  )

  pub list_jobs-Spends : (opts : ListJobsOptions) → Spends 2 (list_jobs p opts)
  unfolding list_jobs count_jobs fetch_jobs
  list_jobs-Spends opts =
      let q = build_query opts in
      Spends-bind 1 1 (count_jobs q)
        (λ total. fetch_jobs p q (all_args opts q) >>= λ jobs.
          return (record { jobs = jobs; total = total }))
        (Spends-statement (λ t. (ok (length (selected q t.jobs)), t)))
        (λ total.
          Spends-bind 1 0 (fetch_jobs p q (all_args opts q))
            (λ jobs. return (record { jobs = jobs; total = total }))
            (Spends-statement (λ t. (
              scan_jobs p (
                  data_query p q (number_of (placeholder (all_args opts q) q.arg_idx))
                    (number_of (placeholder (all_args opts q) (q.arg_idx + 1))) t.jobs),
              t,
            )))
            (λ jobs w. Spent-none 0 w.turns))

  pub create_job_tx-Spends : (job : Job) → Spends 1 (create_job_tx p job)
  create_job_tx-Spends job w = elim (create_job_tx-cases p job w) [
    | inl e ↦ rw e (Spent-none 1 w.turns)
    | inr (o, ts, e) ↦ rw e (Spends-statement_tx (insert_job p job o ts) w)
  ]

  pub create_idempotency_key_tx-Spends :
      (hash id response : String) → Spends 1 (create_idempotency_key_tx p hash id response)
  unfolding create_idempotency_key_tx
  create_idempotency_key_tx-Spends hash id response =
      Spends-statement_tx (insert_key p hash id response)
