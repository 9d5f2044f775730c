-- ===== src/Store/Invariant.antt =====
-- What every sequence of the statements of internal/models/db.go keeps true of the tables.
use vibls_assignment.Common.{
  suc, String, ◌≡◌, refl, ◌∙◌, inl, inr, Bool, true, Option, List, [], ◌∷◌, ◌++◌, arith, ◌==◌,
  Bool-cases, keep, any, All, All-append,
}
use vibls_assignment.Job.{JobStatus, PipelineStage, Time, Job}
use vibls_assignment.Store.Rows.{JobRow, IdempotencyKey, Tables, Platform, jobs_unique, commit_jobs}
use vibls_assignment.Store.Jobs.{
  with_status, update_where, new_row, stored, insert_job, set_status, insert_event,
}
use vibls_assignment.Store.Keys.{insert_key}
use vibls_assignment.Store.Hashes.{DistinctHashes, DistinctHashes-append, DistinctHashes-keep}
use vibls_assignment.Store.Lookup.{any-update}

abbrev pub has_job : List JobRow → String → Bool
has_job rows id = any (λ r. r.id == id) rows

pub record Inv (t : Tables) : Type 0 where
  pub unique : jobs_unique t.jobs ≡ true
  pub hashes : DistinctHashes t.keys
  pub keys_linked : All (λ k. has_job t.jobs k.job_id ≡ true) t.keys
  pub events_linked : All (λ e. has_job t.jobs e.job_id ≡ true) t.events

-- One statement of the repository, or time that passes.
pub data Step (p : Platform) (t u : Tables) : Type 0 where
  insert_job_step :
      (job : Job) (overrides timestamps : Option String)
      → u ≡ (insert_job p job overrides timestamps t).1
      → Step p t u
  set_status_step :
      (id : String) (status : JobStatus) (stage : PipelineStage) (message : String)
      → u ≡ (set_status p id status stage message t).1
      → Step p t u
  insert_event_step :
      (id : String) (from_stage to_stage : Option PipelineStage) (status : JobStatus)
      (message : String) (metadata : Option String)
      → u ≡ (insert_event p id from_stage to_stage status message metadata t).1
      → Step p t u
  insert_key_step :
      (hash job_id response : String) → u ≡ (insert_key p hash job_id response t).1 → Step p t u
  delete_keys_step :
      (test : IdempotencyKey → Bool) → u ≡ record t { keys = keep test t.keys } → Step p t u
  tick_step : (now : Time) → u ≡ record t { now = now } → Step p t u

pub data Reach (p : Platform) (t : Tables) : Tables → Type 0 where
  here : Reach p t t
  next : {u v : Tables} → Reach p t u → Step p u v → Reach p t v

abbrev pub empty : Tables
empty = record { jobs = []; events = []; keys = []; serial = 0; now = 0 }

pub has_job-append :
    (rows more : List JobRow) (id : String)
    → has_job rows id ≡ true
    → has_job (rows ++ more) id ≡ true
has_job-append [] more id h = cc
has_job-append (r ∷ rows) more id h = ground (arith, has_job-append rows more id)

module _ {A : Type 0} (id_of : A → String) where
  linked-append :
      (rows more : List JobRow) (xs : List A)
      → All (λ a. has_job rows (id_of a) ≡ true) xs
      → All (λ a. has_job (rows ++ more) (id_of a) ≡ true) xs
  linked-append rows more [] h = tt
  linked-append rows more (a ∷ xs) h =
      (has_job-append rows more (id_of a) h.0, linked-append rows more xs h.1)

  linked-update :
      (rows : List JobRow) (id : String) (change : JobRow → JobRow) (xs : List A)
      → ((r : JobRow) → (change r).id ≡ r.id)
      → All (λ a. has_job rows (id_of a) ≡ true) xs
      → All (λ a. has_job (update_where (λ r. r.id == id) change rows) (id_of a) ≡ true) xs
  linked-update rows id change [] keeps h = tt
  linked-update rows id change (a ∷ xs) keeps h =
      (any-update id (id_of a) change rows keeps ∙ h.0, linked-update rows id change xs keeps h.1)

  linked-keep :
      (rows : List JobRow) (test : A → Bool) (xs : List A)
      → All (λ a. has_job rows (id_of a) ≡ true) xs
      → All (λ a. has_job rows (id_of a) ≡ true) (keep test xs)
  linked-keep rows test [] h = tt
  linked-keep rows test (a ∷ xs) h = elim (Bool-cases (test a)) [
    | inl kept ↦ rw kept (h.0, linked-keep rows test xs h.1)
    | inr gone ↦ rw gone (linked-keep rows test xs h.1)
  ]

commit_jobs-Inv :
    {A : Type 0} (a : A) (rows : List JobRow) (t : Tables)
    → Inv t
    → All (λ k. has_job rows k.job_id ≡ true) t.keys
    → All (λ e. has_job rows e.job_id ≡ true) t.events
    → Inv (commit_jobs a rows t).1
commit_jobs-Inv a rows t v ks es = elim (Bool-cases (jobs_unique rows)) [
  | inl unique ↦
      rw unique
        (record { unique = unique; hashes = v.hashes; keys_linked = ks; events_linked = es })
  | inr clash ↦ rw clash v
]

insert_job-Inv :
    (p : Platform) (job : Job) (overrides timestamps : Option String) (t : Tables)
    → Inv t
    → Inv (insert_job p job overrides timestamps t).1
unfolding insert_job
insert_job-Inv p job overrides timestamps t v =
    let row = new_row p job (stored p overrides) (stored p timestamps) t in
    commit_jobs-Inv row.id (t.jobs ++ row ∷ []) (record t { serial = suc t.serial })
      (record {
        unique = v.unique;
        hashes = v.hashes;
        keys_linked = v.keys_linked;
        events_linked = v.events_linked;
      })
      (linked-append (λ k. k.job_id) t.jobs (row ∷ []) t.keys v.keys_linked)
      (linked-append (λ e. e.job_id) t.jobs (row ∷ []) t.events v.events_linked)

set_status-Inv :
    (p : Platform) (id : String) (status : JobStatus) (stage : PipelineStage) (message : String)
    (t : Tables)
    → Inv t
    → Inv (set_status p id status stage message t).1
unfolding set_status
set_status-Inv p id status stage message t v =
    let change = with_status status stage message t.now in
    let kept =
      commit_jobs-Inv tt (update_where (λ r. r.id == id) change t.jobs) t v
        (linked-update (λ k. k.job_id) t.jobs id change t.keys (λ r. refl) v.keys_linked)
        (linked-update (λ e. e.job_id) t.jobs id change t.events (λ r. refl) v.events_linked) in
    elim (Bool-cases (p.is_uuid id)) [
      | inr bad ↦ rw bad v
      | inl good ↦ elim (Bool-cases (any (λ r. r.id == id) t.jobs)) [
        | inr missing ↦ rw (good, missing) v
        | inl found ↦ rw (good, found) kept
      ]
    ]

insert_event-Inv :
    (p : Platform) (id : String) (from_stage to_stage : Option PipelineStage) (status : JobStatus)
    (message : String) (metadata : Option String) (t : Tables)
    → Inv t
    → Inv (insert_event p id from_stage to_stage status message metadata t).1
unfolding insert_event
insert_event-Inv p id from_stage to_stage status message metadata t v =
    elim (Bool-cases (any (λ r. r.id == id) t.jobs)) [
      | inr missing ↦ rw missing v
      | inl found ↦ rw found (record {
        unique = v.unique;
        hashes = v.hashes;
        keys_linked = v.keys_linked;
        events_linked = All-append _ t.events _ v.events_linked (found, tt);
      })
    ]

insert_key-Inv :
    (p : Platform) (hash job_id response : String) (t : Tables)
    → Inv t
    → Inv (insert_key p hash job_id response t).1
unfolding insert_key
insert_key-Inv p hash job_id response t v = elim (Bool-cases (any (λ k. k.hash == hash) t.keys)) [
  | inl taken ↦ rw taken v
  | inr free ↦ elim (Bool-cases (any (λ r. r.id == job_id) t.jobs)) [
    | inr missing ↦ rw (free, missing) v
    | inl found ↦
        rw (free, found)
          (record {
            unique = v.unique;
            hashes = DistinctHashes-append t.keys _ v.hashes free;
            keys_linked = All-append _ t.keys _ v.keys_linked (found, tt);
            events_linked = v.events_linked;
          })
  ]
]

-- One statement, whatever its arguments and whether or not it succeeds, keeps the invariant.
pub Step-Inv : (p : Platform) {t u : Tables} → Step p t u → Inv t → Inv u
Step-Inv p {t} (insert_job_step job o s e) v = rw e (insert_job-Inv p job o s t v)
Step-Inv p {t} (set_status_step id status stage message e) v =
    rw e (set_status-Inv p id status stage message t v)
Step-Inv p {t} (insert_event_step id f g status message metadata e) v =
    rw e (insert_event-Inv p id f g status message metadata t v)
Step-Inv p {t} (insert_key_step hash job_id response e) v =
    rw e (insert_key-Inv p hash job_id response t v)
Step-Inv p {t} (delete_keys_step test e) v = rw e (record {
  unique = v.unique;
  hashes = DistinctHashes-keep test t.keys v.hashes;
  keys_linked = linked-keep (λ k. k.job_id) t.jobs test t.keys v.keys_linked;
  events_linked = v.events_linked;
})
Step-Inv p (tick_step now e) v = rw e (record {
  unique = v.unique;
  hashes = v.hashes;
  keys_linked = v.keys_linked;
  events_linked = v.events_linked;
})

pub Reach-Inv : (p : Platform) {t : Tables} → Reach p empty t → Inv t
unfolding jobs_unique
Reach-Inv p here = record { unique = refl; hashes = tt; keys_linked = tt; events_linked = tt }
Reach-Inv p (next r s) = Step-Inv p s (Reach-Inv p r)
