-- ===== src/Api/Serve.antt =====
-- MountRoutes of internal/api/router.go, MetricsMiddleware of internal/api/metrics.go, and how
-- cmd/api/main.go puts them together. chi and its middlewares are outside: which route a request
-- has, and what they answer themselves, is given, as is the text that the Prometheus handler
-- writes.
use vibls_assignment.Common.{
  String, ◌≡◌, refl, ap, ◌⊎◌, inl, inr, Option, none, some, List, [], ◌∷◌, ◌++◌, arith,
}
use vibls_assignment.Common.Text.{Bytes, codes, decimal}
use vibls_assignment.Job.{Time}
use vibls_assignment.Store.Rows.{Tables, Platform, World, calm}
use vibls_assignment.Store.Jobs.{select_job, get_job}
use vibls_assignment.Store.Paging.{list_jobs-calm}
use vibls_assignment.Queue.Tasks.{TaskQueue}
use vibls_assignment.Api.Http.{raw_body, Response, http_error, Server}
use vibls_assignment.Api.Auth.{
  HttpRequest, AuthzInput, Evaluation, Passage, rejected, passed, auth_middleware,
}
use vibls_assignment.Api.Create.{Codec, handle_create_job}
use vibls_assignment.Api.Created.{at}
use vibls_assignment.Api.Read.{ListQuery, options_of, handle_list_jobs, handle_get_job}

-- The routes of the server. A request that chi or one of its middlewares answers (no such route, a
-- preflight request, a timeout) has the last one.
pub data Route : Type 0 where
  healthz metrics_page post_jobs get_jobs get_job_by_id : Route
  outside : Response → Route

pub record Incoming : Type 0 where
  pub http : HttpRequest
  pub query : ListQuery
  pub id : String  -- the parameter "id" of the path

-- The labels of http_requests_total; the path stands for the pattern if chi has no route context.
pub record Labels : Type 0 where
  pub method : String
  pub pattern : Bytes
  pub status : String

pub record Service : Type 0 where
  pub server : Server
  pub requests : List Labels  -- one entry for each increment of http_requests_total

abbrev pattern_of : HttpRequest → Bytes
pattern_of r = elim r.route_pattern [ none ↦ r.path | some pattern ↦ codes pattern ]

-- The middleware runs the handler and counts the request with the status that was written.
unfoldable pub metrics_middleware :
    (Server → Response × Server) → HttpRequest → Service → Response × Service
metrics_middleware next r s =
    let (response, server) = next s.server in
    (
      response,
      record {
        server = server;
        requests =
            s.requests
            ++ record { method = r.method; pattern = pattern_of r; status = decimal response.code }
              ∷ [];
      },
    )

abbrev pub read_only : (World → Response × World) → Server → Response × Server
read_only handle s = let (response, w) = handle s.world in (response, record s { world = w })

abbrev pub guarded : Passage → (Server → Response × Server) → Server → Response × Server
guarded (rejected code message) handle s = (http_error code message, s)
guarded passed handle s = handle s

module _ (p : Platform) (c : Codec) (engine : Option (AuthzInput → Evaluation)) (now : Time)
    (metrics_text : String) where
  -- Each route of the API stands behind its own authMiddleware.
  unfoldable pub mount_routes : Route → Incoming → Server → Response × Server
  mount_routes healthz i s = (record { code = 200; body = raw_body "{\"status\":\"ok\"}" }, s)
  mount_routes metrics_page i s = (record { code = 200; body = raw_body metrics_text }, s)
  mount_routes post_jobs i s =
      guarded (auth_middleware engine i.http) (handle_create_job p c i.http.body now) s
  mount_routes get_jobs i s =
      guarded (auth_middleware engine i.http) (read_only (handle_list_jobs p i.query)) s
  mount_routes get_job_by_id i s =
      guarded (auth_middleware engine i.http) (read_only (handle_get_job p i.id)) s
  mount_routes (outside response) i s = (response, s)

  unfoldable pub serve : Route → Incoming → Service → Response × Service
  unfolding mount_routes metrics_middleware
  serve route i s = metrics_middleware (mount_routes route i) i.http s

  handle_list_jobs-calm : (q : ListQuery) (t : Tables) → (handle_list_jobs p q (calm t)).1 ≡ calm t
  unfolding handle_list_jobs
  handle_list_jobs-calm q t = ground (arith, list_jobs-calm p (options_of q) t)

  handle_get_job-calm : (id : String) (t : Tables) → (handle_get_job p id (calm t)).1 ≡ calm t
  unfolding handle_get_job get_job select_job
  handle_get_job-calm id t = ground arith

  guarded-changes :
      (route : Route) (a : Passage) (handle : Server → Response × Server) (s : Server)
      → ((handle s).1 ≡ s) ⊎ (route ≡ post_jobs)
      → ((guarded a handle s).1 ≡ s) ⊎ ((route ≡ post_jobs) × (a ≡ passed))
  guarded-changes route (rejected code message) handle s h = inl refl
  guarded-changes route passed handle s (inl same) = inl same
  guarded-changes route passed handle s (inr post) = inr (post, refl)

  mount_routes-changes :
      (route : Route) (i : Incoming) (t : Tables) (q : TaskQueue)
      → ((mount_routes route i (at t q)).1 ≡ at t q)
        ⊎ ((route ≡ post_jobs) × (auth_middleware engine i.http ≡ passed))
  unfolding mount_routes
  mount_routes-changes healthz i t q = inl refl
  mount_routes-changes metrics_page i t q = inl refl
  mount_routes-changes post_jobs i t q =
      guarded-changes post_jobs (auth_middleware engine i.http) _ (at t q) (inr refl)
  mount_routes-changes get_jobs i t q =
      guarded-changes get_jobs (auth_middleware engine i.http)
        (read_only (handle_list_jobs p i.query)) (at t q)
        (inl (ap (λ (w : World). record (at t q) { world = w }) (handle_list_jobs-calm i.query t)))
  mount_routes-changes get_job_by_id i t q =
      guarded-changes get_job_by_id (auth_middleware engine i.http)
        (read_only (handle_get_job p i.id)) (at t q)
        (inl (ap (λ (w : World). record (at t q) { world = w }) (handle_get_job-calm i.id t)))
  mount_routes-changes (outside response) i t q = inl refl

  -- Calm: a request that changes the tables or the queue is a POST of a job that the middleware let
  -- pass, and every request is counted once, with the status of its answer.
  pub serve-changes :
      (route : Route) (i : Incoming) (t : Tables) (q : TaskQueue) (requests : List Labels)
      → let s : Service = record { server = at t q; requests = requests } in
        let (response, s') = serve route i s in
        (s'.requests
          ≡ requests
            ++ record {
              method = i.http.method;
              pattern = pattern_of i.http;
              status = decimal response.code;
            }
              ∷ [])
        × ((s'.server ≡ at t q) ⊎ ((route ≡ post_jobs) × (auth_middleware engine i.http ≡ passed)))
  unfolding serve
  serve-changes route i t q requests = (refl, mount_routes-changes route i t q)
