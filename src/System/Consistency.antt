-- ===== src/System/Consistency.antt =====
-- What every run of the program keeps true of the tables and the queue.
use mathlib.Core.Path.{subst}
use vibls_assignment.Common.{
  ℕ, zero, suc, String, ◌≡◌, refl, sym, ap, ◌∙◌, ◌≢◌, true, false, some, List, [], ◌∷◌, ◌++◌,
  get_elem?, All, All-append,
}
use vibls_assignment.Store.Rows.{JobRow, Tables, Turn}
use vibls_assignment.Store.Invariant.{has_job, Inv, Reach}
use vibls_assignment.Queue.Tasks.{Task, deploy_task}
use vibls_assignment.Api.Serve.{Service, serve}
use vibls_assignment.System.Moves.{Tame, Reach-has_job, Reach-keeps_Inv}
use vibls_assignment.System.Transaction.{Enqueued, no_task, one_task}
use vibls_assignment.System.Serving.{serve-Served}
use vibls_assignment.System.Steps.{delivery-queue, run_event-Reach}
use vibls_assignment.System.Events.{
  Program, System, Event, request, delivery, tick, turns_of, service_of, run_event,
}

pub All-map {ℓ κ κ'} :
    {A : Type ℓ} (P : A → Type κ) (Q : A → Type κ') (xs : List A)
    → ((a : A) → P a → Q a)
    → All P xs
    → All Q xs
All-map P Q [] f h = tt
All-map P Q (x ∷ xs) f h = (f x h.0, All-map P Q xs f h.1)

some-eq {ℓ} : {A : Type ℓ} {a b : A} → some a ≡ some b → a ≡ b
some-eq q = cc

pub All-get_elem? {ℓ κ} :
    {A : Type ℓ} (P : A → Type κ) (xs : List A) (i : ℕ) {a : A}
    → All P xs
    → get_elem? xs i ≡ some a
    → P a
All-get_elem? P [] i h e = cc
All-get_elem? P (x ∷ xs) zero h e = subst P (some-eq e) h.0
All-get_elem? P (x ∷ xs) (suc i) h e = All-get_elem? P xs i h.1 e

-- No two tasks have one identifier.
abbrev pub IsDistinct : List Task → Type 0
IsDistinct [] = Unit
IsDistinct (t ∷ ts) = All (λ u. t.task_id ≢ u.task_id) ts × IsDistinct ts

IsDistinct-append :
    (ts : List Task) (u : Task)
    → IsDistinct ts
    → All (λ t. t.task_id ≢ u.task_id) ts
    → IsDistinct (ts ++ u ∷ [])
IsDistinct-append [] u d h = (tt, tt)
IsDistinct-append (t ∷ ts) u d h = (All-append _ ts _ d.0 (h.0, tt), IsDistinct-append ts u d.1 h.1)

module _ (g : Program) where
  -- A deploy task whose job is in the tables, with the payload of that job.
  pub record Owned (rows : List JobRow) (task : Task) : Type 0 where
    pub id : String
    pub payload : String
    pub made : task ≡ deploy_task id payload
    pub marshalled : g.codec.marshal_payload id ≡ some payload
    pub present : has_job rows id ≡ true

  pub record Consistent (s : System) : Type 0 where
    pub inv : Inv s.tables
    pub owned : All (Owned s.tables.jobs) s.queue.tasks
    pub distinct : IsDistinct s.queue.tasks

  Owned-later :
      {t u : Tables} (tasks : List Task)
      → Reach g.platform t u
      → All (Owned t.jobs) tasks
      → All (Owned u.jobs) tasks
  Owned-later {t} {u} tasks r h =
      All-map (Owned t.jobs) (Owned u.jobs) tasks
        (λ task o. record {
          id = o.id;
          payload = o.payload;
          made = o.made;
          marshalled = o.marshalled;
          present = Reach-has_job o.id r o.present;
        })
        h

  -- Tasks whose jobs are in tables have other identifiers than a job that is not.
  others_differ :
      (rows : List JobRow) (tasks : List Task) (id payload : String)
      → All (Owned rows) tasks
      → has_job rows id ≡ false
      → All (λ t. t.task_id ≢ (deploy_task id payload).task_id) tasks
  unfolding deploy_task
  others_differ rows tasks id payload h missing =
      All-map (Owned rows) (λ t. t.task_id ≢ some id) tasks
        (λ task o q.
          let same : o.id ≡ id = some-eq (sym (ap (λ (t : Task). t.task_id) o.made) ∙ q) in
          true_ne_false (sym o.present ∙ ap (has_job rows) same ∙ missing))
        h
    where
      true_ne_false : true ≢ false
      true_ne_false q = cc

  -- Only a request changes the queue.
  same_queue :
      (s s' : System)
      → s'.queue.tasks ≡ s.queue.tasks
      → Reach g.platform s.tables s'.tables
      → Consistent s
      → Consistent s'
  same_queue s s' e r v = record {
    inv = Reach-keeps_Inv g.platform r v.inv;
    owned = rw e (Owned-later s.queue.tasks r v.owned);
    distinct = rw e v.distinct;
  }

  request-Consistent :
      (s : System) (turns : List Turn) (s' : Service)
      → Enqueued g.platform g.codec (service_of g s turns).server s'.server
      → Reach g.platform s.tables s'.server.world.tables
      → Consistent s
      → Consistent (record s {
        tables = s'.server.world.tables;
        queue = s'.server.queue;
        requests = s'.requests;
      })
  request-Consistent s turns s' (no_task same) r v = same_queue s _ same r v
  request-Consistent s turns s' (one_task id payload base same marshalled r₀ missing present) r v =
      record {
        inv = Reach-keeps_Inv g.platform r v.inv;
        owned = rw same (
            All-append (Owned s'.server.world.tables.jobs) s.queue.tasks
              (deploy_task id payload ∷ []) (Owned-later s.queue.tasks r v.owned)
              (
                record {
                  id = id;
                  payload = payload;
                  made = refl;
                  marshalled = marshalled;
                  present = present;
                },
                tt,
              ));
        distinct = rw same (
            IsDistinct-append s.queue.tasks (deploy_task id payload) v.distinct (
              others_differ base.jobs s.queue.tasks id payload
                (Owned-later s.queue.tasks r₀ v.owned) missing));
      }

  pub run_event-Consistent :
      (e : Event) (s : System)
      → Tame g.platform (turns_of e)
      → Consistent s
      → Consistent (run_event g e s)
  unfolding run_event
  run_event-Consistent (request route i now turns) s h v =
      let served =
        serve-Served g.platform g.codec g.engine now g.metrics_text route i (service_of g s turns)
          h in
      request-Consistent s turns
        (serve g.platform g.codec g.engine now g.metrics_text route i (service_of g s turns)).1
        served.enqueued served.moves.reach v
  run_event-Consistent (delivery index turns) s h v =
      same_queue s (run_event g (delivery index turns) s) (delivery-queue g index turns s)
        (run_event-Reach g (delivery index turns) s h) v
  run_event-Consistent (tick t turns) s h v =
      same_queue s (run_event g (tick t turns) s) refl (run_event-Reach g (tick t turns) s h) v
