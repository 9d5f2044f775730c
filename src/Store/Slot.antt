-- ===== src/Store/Slot.antt =====
-- The table of jobs as one lock for each target: what the unique index idx_jobs_one_active_deploy
-- makes of the statements of internal/models/db.go.
use vibls_assignment.Store.Keys.{insert_key}
use mathlib.Core.List.{Memᴰ}
use vibls_assignment.Common.{
  suc, String, ◌≡◌, refl, sym, ap, ◌∙◌, inl, inr, true, false, Option, none, some, List, [], ◌∷◌,
  ◌++◌, arith, ◌==◌, Bool-cases, any,
}
use vibls_assignment.Job.{JobStatus, PipelineStage}
use vibls_assignment.Store.Rows.{JobRow, Tables, Platform, jobs_unique, commit_jobs}
use vibls_assignment.Store.Jobs.{
  with_status, update_where, new_row, stored, insert_job, set_status, insert_event,
}
use vibls_assignment.Store.Invariant.{
  Step, insert_job_step, set_status_step, insert_event_step, insert_key_step, delete_keys_step,
  tick_step,
}

-- The lock of a target: the id of its queued or running job.
abbrev pub id_of : Option JobRow → Option String
id_of none = none
id_of (some r) = some r.id

-- A lock as it may be used: it is taken when it is free, and given back.
pub data LockStep : Option String → Option String → Type 0 where
  unchanged : {o : Option String} → LockStep o o
  acquired : (id : String) → LockStep none (some id)
  released : (id : String) → LockStep (some id) none

-- What a statement makes of the rows.
pub data Changed (p : Platform) (t : Tables) (rows : List JobRow) : Type 0 where
  as_before : rows ≡ t.jobs → Changed p t rows
  one_more : (row : JobRow) → rows ≡ t.jobs ++ row ∷ [] → Changed p t rows
  one_updated :
      (id : String) (status : JobStatus) (stage : PipelineStage) (message : String)
      → rows ≡ update_where (λ r. r.id == id) (with_status status stage message t.now) t.jobs
      → Changed p t rows

commit_jobs-Changed :
    {A : Type 0} (p : Platform) (a : A) (rows : List JobRow) (t u : Tables)
    → u.jobs ≡ t.jobs
    → Changed p t rows
    → Changed p t (commit_jobs a rows u).1.jobs
commit_jobs-Changed p a rows t u same c = elim (Bool-cases (jobs_unique rows)) [
  | inl unique ↦ rw unique c
  | inr clash ↦ rw clash (as_before same)
]

set_status-Changed :
    (p : Platform) (id : String) (status : JobStatus) (stage : PipelineStage) (message : String)
    (t : Tables)
    → Changed p t (set_status p id status stage message t).1.jobs
unfolding set_status
set_status-Changed p id status stage message t = elim (Bool-cases (p.is_uuid id)) [
  | inr bad ↦ rw bad (as_before refl)
  | inl good ↦ elim (Bool-cases (any (λ r. r.id == id) t.jobs)) [
    | inr missing ↦ rw (good, missing) (as_before refl)
    | inl found ↦
        rw (good, found)
          (commit_jobs-Changed p tt
            (update_where (λ r. r.id == id) (with_status status stage message t.now) t.jobs) t t
            refl (one_updated id status stage message refl))
  ]
]

insert_event-jobs :
    (p : Platform) (id : String) (f g : Option PipelineStage) (status : JobStatus)
    (message : String) (metadata : Option String) (t : Tables)
    → (insert_event p id f g status message metadata t).1.jobs ≡ t.jobs
unfolding insert_event
insert_event-jobs p id f g status message metadata t =
    elim (Bool-cases (any (λ r. r.id == id) t.jobs)) [
      | inl found ↦ rw found refl
      | inr missing ↦ rw missing refl
    ]

insert_key-jobs :
    (p : Platform) (hash job_id response : String) (t : Tables)
    → (insert_key p hash job_id response t).1.jobs ≡ t.jobs
unfolding insert_key
insert_key-jobs p hash job_id response t = ground arith

pub Step-Changed : (p : Platform) {t u : Tables} → Step p t u → Changed p t u.jobs
unfolding insert_job
Step-Changed p {t} (insert_job_step job o s e) = rw e (
    commit_jobs-Changed p _ (t.jobs ++ new_row p job (stored p o) (stored p s) t ∷ []) t
      (record t { serial = suc t.serial }) refl
      (one_more (new_row p job (stored p o) (stored p s) t) refl))
Step-Changed p {t} (set_status_step id status stage message e) =
    rw e (set_status-Changed p id status stage message t)
Step-Changed p {t} (insert_event_step id f g status message metadata e) =
    rw e (as_before (insert_event-jobs p id f g status message metadata t))
Step-Changed p {t} (insert_key_step hash job_id response e) =
    rw e (as_before (insert_key-jobs p hash job_id response t))
Step-Changed p (delete_keys_step test e) = rw e (as_before refl)
Step-Changed p (tick_step now e) = rw e (as_before refl)

pub Memᴰ-append : {r : JobRow} (rows more : List JobRow) → Memᴰ r rows → Memᴰ r (rows ++ more)
Memᴰ-append [] more m = elim m [ ]
Memᴰ-append (s ∷ rows) more (Memᴰ.head e) = Memᴰ.head e
Memᴰ-append (s ∷ rows) more (Memᴰ.tail m) = Memᴰ.tail (Memᴰ-append rows more m)

module _ (id : String) (change : JobRow → JobRow)
    (keeps : (r : JobRow) → (change r).id ≡ r.id) where
  -- A row with another id is in the updated table exactly if it was there before.
  pub Memᴰ-update :
      {r : JobRow} (rows : List JobRow)
      → (r.id == id) ≡ false
      → Memᴰ r rows
      → Memᴰ r (update_where (λ s. s.id == id) change rows)
  Memᴰ-update [] h m = elim m [ ]
  Memᴰ-update {r} (s ∷ rows) h (Memᴰ.head e) =
      let miss : (s.id == id) ≡ false = ap (λ (k : JobRow). k.id == id) (sym e) ∙ h in
      rw miss (Memᴰ.head e)
  Memᴰ-update (s ∷ rows) h (Memᴰ.tail m) = Memᴰ.tail (Memᴰ-update rows h m)

  pub Memᴰ-update_back :
      {r : JobRow} (rows : List JobRow)
      → (r.id == id) ≡ false
      → Memᴰ r (update_where (λ s. s.id == id) change rows)
      → Memᴰ r rows
  Memᴰ-update_back [] h m = elim m [ ]
  Memᴰ-update_back {r} (s ∷ rows) h (Memᴰ.head e) = elim (Bool-cases (s.id == id)) [
    | inr miss ↦ Memᴰ.head (e ∙ rw miss refl)
    | inl hit ↦
        let same : r ≡ change s = e ∙ rw hit refl in
        let also : (r.id == id) ≡ true =
          ap (λ (k : JobRow). k.id == id) same ∙ ap (λ (k : String). k == id) (keeps s) ∙ hit in
        cc
  ]
  Memᴰ-update_back (s ∷ rows) h (Memᴰ.tail m) = Memᴰ.tail (Memᴰ-update_back rows h m)
