-- ===== src/Store/Events.antt =====
-- The audit trail of internal/models/db.go: CreateJobEvent and ListJobEvents.
use vibls_assignment.Common.{String, ◌==◌, List, [], ◌∷◌, keep, leb, if◌then◌else◌}
use vibls_assignment.Job.{JobEvent}
use vibls_assignment.Store.Rows.{EventRow, Platform, bad_uuid, Result, ok, err, M, statement}
use vibls_assignment.Store.Jobs.{scan_text, and_then, insert_event}

unfoldable pub create_job_event : Platform → JobEvent → M (Unit {0})
unfolding insert_event
create_job_event p e = statement λ t.
    if p.is_uuid e.job_id
    then insert_event p e.job_id e.from_stage e.to_stage e.status e.message e.metadata t
    else (err bad_uuid, t)

-- ORDER BY created_at ASC; events of one instant stay in the order of the table.
unfoldable pub insert_asc : EventRow → List EventRow → List EventRow
insert_asc e [] = e ∷ []
insert_asc e (f ∷ fs) = if leb e.created_at f.created_at then e ∷ f ∷ fs else f ∷ insert_asc e fs

unfoldable pub order_asc : List EventRow → List EventRow
unfolding insert_asc
order_asc [] = []
order_asc (e ∷ es) = insert_asc e (order_asc es)

-- A NULL message cannot be scanned; the nullable stages and the metadata go to pointers.
abbrev pub scan_event : EventRow → Result JobEvent
scan_event e = and_then (scan_text e.message) λ message. ok (record {
  id = e.id;
  job_id = e.job_id;
  from_stage = e.from_stage;
  to_stage = e.to_stage;
  status = e.status;
  message = message;
  metadata = e.metadata;
  created_at = e.created_at;
})

unfoldable pub scan_events : List EventRow → Result (List JobEvent)
scan_events [] = ok []
scan_events (e ∷ es) =
    and_then (scan_event e) λ event. and_then (scan_events es) λ events. ok (event ∷ events)

unfoldable pub list_job_events : Platform → String → M (List JobEvent)
unfolding order_asc scan_events
list_job_events p job_id = statement λ t.
    if p.is_uuid job_id
    then (scan_events (order_asc (keep (λ e. e.job_id == job_id) t.events)), t)
    else (err bad_uuid, t)
