-- ===== src/Examples/Processes.antt =====
-- Runs of the two main programs, with a tracing that cannot start.
use vibls_assignment.Common.{inr, ◌≡◌, refl, true, none, some, [], ◌∷◌, ◌==◌, if◌then◌else◌}
use vibls_assignment.Common.Text.{codes}
use vibls_assignment.Api.Auth.{results, new_rego_engine}
use vibls_assignment.Worker.Settings.{new_apply_stage, Environment, Libraries}
use vibls_assignment.Process.Migrations.{no_change, run_migrations}
use vibls_assignment.Process.Effects.{migration, returned}
use vibls_assignment.Process.Telemetry.{TracingLibrary, init_tracer_provider}
use vibls_assignment.Process.Servers.{start_server}
use vibls_assignment.Process.Mains.{HttpServer, api_body, run_api, worker_body, run_worker}
use vibls_assignment.Process.Open.{still_open}
use vibls_assignment.Process.Closing.{run_api-closed, run_worker-closed}

abbrev libraries : Libraries
libraries = record {
  parse_config = λ url. true;
  new_pool = λ url. true;
  migrator = record { source_error = none; instance_error = λ url. none; up = λ url. no_change };
  read_policy = λ path. some (codes "package deploy.authz");
  prepare = λ policy. inr (λ input. results []);
  parse_url = λ url. none;
}

-- The exporter starts, and the resource cannot be made.
abbrev tracing : TracingLibrary
tracing = record {
  new_exporter = λ endpoint. none;
  new_resource = λ name environment. some "conflicting schema";
}

abbrev environment : Environment
environment name = if name == "DATABASE_URL" then codes "postgres://db" else []

abbrev stopping : HttpServer
stopping = record { listen_error = none; shutdown_error = none }

api_returns : (run_api libraries tracing environment stopping).ending ≡ returned
unfolding run_api api_body new_rego_engine run_migrations init_tracer_provider
api_returns = refl

worker_returns : (run_worker libraries tracing environment none).ending ≡ returned
unfolding run_worker worker_body new_apply_stage run_migrations start_server init_tracer_provider
worker_returns = refl

run_api-closed_example :
    still_open (run_api libraries tracing environment stopping).effects ≡ migration ∷ []
run_api-closed_example = run_api-closed libraries tracing environment stopping api_returns

run_worker-closed_example :
    still_open (run_worker libraries tracing environment none).effects ≡ migration ∷ []
run_worker-closed_example = run_worker-closed libraries tracing environment none worker_returns
