-- ===== src/System/Loading.antt =====
-- A task's job is found: the deploy handler of cmd/worker/main.go on a job that is in the tables
-- when the task is delivered, with others between.
use vibls_assignment.Common.{
  String, ◌≡◌, refl, ap, ◌∙◌, ◌≢◌, inl, inr, Bool, true, false, Option, none, some, List, [], ◌∷◌,
  arith, ◌==◌, Bool-cases, Option-cases, find_first,
}
use vibls_assignment.Job.{Job}
use vibls_assignment.Store.Rows.{
  JobRow, Platform, DbError, no_rows, key_exists, unavailable, unique_violation, missing_reference,
  bad_uuid, bad_json, null_column, Result, ok, err, World, first_turn, after, Result-cases,
}
use vibls_assignment.Store.Jobs.{
  unmarshal_column, scan_text, and_then, scan_job, select_job, get_job,
}
use vibls_assignment.Store.Invariant.{has_job}
use vibls_assignment.Worker.Pipeline.{Stages, Run, ExecuteError, execute}
use vibls_assignment.Worker.Deploy.{
  HandlerError, bad_payload, not_loaded, pipeline_error, handled, handle_deploy_job,
}
use vibls_assignment.System.Moves.{Tame, after-Moves, Reach-has_job}

find_first-any :
    (rows : List JobRow) (id : String)
    → has_job rows id ≡ true
    → (r : JobRow) × (find_first (λ k. k.id == id) rows ≡ some r)
find_first-any [] id h = cc
find_first-any (r ∷ rows) id h = elim (Bool-cases (r.id == id)) [
  | inl hit ↦ (r, rw hit refl)
  | inr other ↦
      let (k, found) = find_first-any rows id (ground (arith, h, other)) in (k, rw other found)
]

-- Scanning a row never says that there is none.
abbrev IsPresent : {A : Type 0} → Result A → Type 0
IsPresent r = r ≢ err no_rows

and_then-IsPresent :
    {A B : Type 0} (r : Result A) (f : A → Result B)
    → IsPresent r
    → ((a : A) → IsPresent (f a))
    → IsPresent (and_then r f)
and_then-IsPresent (ok a) f h hf = hf a
and_then-IsPresent (err e) f h hf = λ q. h (ground arith)

scan_text-IsPresent : (o : Option String) → IsPresent (scan_text o)
scan_text-IsPresent none = λ q. cc
scan_text-IsPresent (some s) = λ q. cc

unmarshal_column-IsPresent :
    {A : Type 0} (unmarshal : String → Option A) (o : Option String)
    → IsPresent (unmarshal_column unmarshal o)
unmarshal_column-IsPresent unmarshal none = λ q. cc
unmarshal_column-IsPresent unmarshal (some s) = elim (Option-cases (unmarshal s)) [
  | inl e ↦ rw (e, unmarshal_column) (λ q. cc)
  | inr (a, e) ↦ rw (e, unmarshal_column) (λ q. cc)
]

scan_job-IsPresent : (p : Platform) (row : JobRow) → IsPresent (scan_job p row)
unfolding scan_job
scan_job-IsPresent p row =
    and_then-IsPresent (scan_text row.current_stage) _ (scan_text-IsPresent row.current_stage)
      λ stage.
        and_then-IsPresent (scan_text row.error_message) _ (scan_text-IsPresent row.error_message)
          λ message.
            and_then-IsPresent (unmarshal_column p.unmarshal_overrides row.resource_overrides) _
              (unmarshal_column-IsPresent p.unmarshal_overrides row.resource_overrides)
              λ overrides.
                and_then-IsPresent (unmarshal_column p.unmarshal_timestamps row.stage_timestamps) _
                  (unmarshal_column-IsPresent p.unmarshal_timestamps row.stage_timestamps)
                  λ timestamps q. cc

abbrev is_no_rows : DbError → Bool
is_no_rows no_rows = true
is_no_rows _ = false

-- The answers of the deploy handler that say that the task has no job.
abbrev pub is_lost : Option HandlerError → Bool
is_lost none = false
is_lost (some bad_payload) = true
is_lost (some (not_loaded id e)) = is_no_rows e
is_lost (some (pipeline_error e)) = false

not_lost : (o : Option ExecuteError) → is_lost (handled o) ≡ false
not_lost none = refl
not_lost (some e) = refl

other_error : (e : DbError) → e ≢ no_rows → is_no_rows e ≡ false
other_error no_rows h = absurd (h refl)
other_error key_exists h = refl
other_error unavailable h = refl
other_error unique_violation h = refl
other_error missing_reference h = refl
other_error bad_uuid h = refl
other_error bad_json h = refl
other_error null_column h = refl

module _ (p : Platform) where
  get_job-IsPresent :
      (id : String) (w : World)
      → Tame p w.turns
      → has_job w.tables.jobs id ≡ true
      → IsPresent (get_job p id w).0
  unfolding get_job select_job
  get_job-IsPresent id w h there =
      let m = after-Moves p w h in
      let (row, found) = find_first-any (after w).tables.jobs id (Reach-has_job id m.reach there) in
      elim (Bool-cases (first_turn w.turns).fails) [
        | inl failed ↦ rw failed (λ q. cc)
        | inr works ↦ elim (Bool-cases (p.is_uuid id)) [
          | inl valid ↦ rw (works, valid, found) (scan_job-IsPresent p row)
          | inr bad ↦ rw (works, bad) (λ q. cc)
        ]
      ]

  module _ (env : String → String) (f : Stages) (decode : String → Option String)
      (payload id : String) (s : Run) (e : decode payload ≡ some id) where
    abbrev loaded : Result Job × World
    loaded = get_job p id s.world

    answer_of_job :
        (job : Job)
        → loaded.0 ≡ ok job
        → (handle_deploy_job p env f decode payload s).0
          ≡ handled (execute p env f job (record s { world = loaded.1 })).0
    unfolding handle_deploy_job
    answer_of_job job found = ground (arith, e, found)

    answer_of_error :
        (x : DbError)
        → loaded.0 ≡ err x
        → (handle_deploy_job p env f decode payload s).0 ≡ some (not_loaded id x)
    unfolding handle_deploy_job
    answer_of_error x failed = ground (arith, e, failed)

    pub handle_deploy_job-found :
        Tame p s.world.turns
        → has_job s.world.tables.jobs id ≡ true
        → is_lost (handle_deploy_job p env f decode payload s).0 ≡ false
    handle_deploy_job-found h there = elim (Result-cases loaded.0) [
      | inl (job, found) ↦
          ap is_lost (answer_of_job job found)
          ∙ not_lost (execute p env f job (record s { world = loaded.1 })).0
      | inr (x, failed) ↦
          ap is_lost (answer_of_error x failed)
          ∙ other_error x (λ q. get_job-IsPresent id s.world h there (failed ∙ ap err q))
    ]
