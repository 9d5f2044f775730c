-- ===== src/Lib.antt =====
-- A deployment service: an HTTP API takes requests to deploy a repository, stores them as jobs in
-- PostgreSQL and queues them in Redis; a worker takes each job through seven stages (clone, build,
-- push, manifests, verification, apply, health check) and records every status that it sets.
--
-- Parts and files:
--   Job            internal/models/job.go and event.go: statuses, stages, transitions, jobs
--   Store          internal/models/db.go with the schema of internal/migrations/files. Rows has the
--                  tables and the environment; Jobs, Keys, Events and Listing have one function for
--                  each method of Repository (CreateJob is create_job, and so on)
--   Queue          internal/queue: Tasks has the two enqueue operations and Redis parseRedisURL of
--                  queue.go, Handler the middlewares of handler.go
--   Api            internal/api: Http has requests and responses, Create handleCreateJob, Read
--                  handleListJobs and handleGetJob, Auth the middleware, Policy the rules of
--                  policies/abac/authz.rego, Serve the routes of router.go and the middleware of
--                  metrics.go
--   Worker         internal/worker: Pipeline has Execute of orchestrator.go, Plan the same as a loop,
--                  Commands the stages of clone.go, build.go and push.go, Manifest the data and
--                  Render the loop of manifest.go, Verify the stage of verify.go, Apply that of
--                  apply.go, Health that of health.go, Deploy the handler and Background the loops of
--                  cmd/worker/main.go, Assembly the stages that it hands to the orchestrator, and
--                  Settings the start of both main programs
--   Verification   internal/verification: Score, Yaml, Quantities, Scans (the tools), Labels and
--                  Resources have heuristic.go, Judge has aijudge.go
--   Learning       internal/learning/analyzer.go, and scheduler.go in Scheduler
--   Process        the main programs as they run: Mains has main of cmd/api/main.go and of
--                  cmd/worker/main.go, Servers the client and the server of queue.go, Telemetry
--                  internal/tracing and internal/logger, Migrations internal/migrations
--   System         the two processes over one set of tables and one queue: Events has what happens
--                  to them and run_event what each event does
--   Strconv        what those take from Go's strconv and strings
--   Common         lists, options, texts and tests on numbers
--   Examples       runs of the code at concrete inputs
-- The other files hold proofs, and each says about which code.
--
-- The API and the worker meet in the tables of Store and in the queue. A World is the tables with
-- the turns of an environment: before each statement others may commit any change, and a statement
-- may fail. A calm world has no turns. A statement runs alone, as in its own transaction; inside the
-- transaction of handleCreateJob others are counted before its begin or after its end. A write
-- to jobs is refused as a whole if it breaks the primary key or the index over active deployments.
-- In System others make statements of the repository only, each event has turns of its own, and a
-- task that the queue has taken may be delivered any number of times.
-- A stage is a function of all calls of stages made before.
--
-- Bounds and fuel: numbers of the database and of Go that cannot be negative are natural numbers;
-- counters that would need 2^63 rows or checks to overflow have no wrap-around. A Go int that a
-- client gives is an integer ℤ, and Strconv.parse_int has the range of int64. The digits of a number
-- n are computed with fuel n, which is enough since each step divides by ten.
--
-- The health check polls on a list of events, one for each turn of its loop; a turn begins before
-- the deadline, and its poll may come after it.
--
-- Columns of type TIMESTAMPTZ keep whole microseconds, so create_job cuts a job's two instants to
-- them. Instants that a query compares with are taken to be whole microseconds.
--
-- Parameters, since their code is not part of the repository: PostgreSQL's identifiers and JSONB
-- texts and encoding/json (Platform, Codec), SHA-256 (Codec), the OPA engine, asynq's answers,
-- git, docker and Kubernetes, kubeconform, trivy, the YAML decoder, text/template, net/url, chi, the
-- HTTP client of the AI judge, OpenTelemetry, zerolog, golang-migrate, the file system and floating
-- point numbers.
-- Texts whose bytes matter are lists of bytes; a constant in them is ASCII. strings.TrimSpace trims
-- ASCII spaces only. filepath.Join is written out for identifiers without dots and slashes.
--
-- Not modelled: the rendering by text/template, CORS, timeouts and durations, the contents of log
-- lines, the adapter from zerolog to asynq, the global propagator of traces, and the pipeline's
-- metrics, which nothing observes: they call libraries. A UUID is compared as text, so another
-- spelling of it (in capitals, say) is not found, which PostgreSQL would find. Texts that PostgreSQL
-- refuses (with NUL or invalid UTF-8) are not among the texts that statements are given.
-- The order of jobs of one instant under ORDER BY is the database's choice, a parameter (ties); that
-- it may choose anew for each query is left out, and the walk through the pages is stated without
-- such ties. Audit events of one instant stay in the table's order.
pub mod Common
pub mod Job
pub mod Store
pub mod Worker
pub mod Queue
pub mod Api
pub mod Strconv
pub mod Process
pub mod System
pub mod Verification
pub mod Examples
pub mod Learning
