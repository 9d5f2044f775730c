-- ===== src/Process/Closing.antt =====
-- What the main programs leave open when they return.
use vibls_assignment.Process.Mains.{
  HttpServer, traced, migrating, serve_until_signal, api_with_policy, api_body, run_api,
  end_of_server, worker_body, run_worker,
}
use vibls_assignment.Common.{
  String, ◌≡◌, refl, ◌⊎◌, inl, inr, not, Option, none, some, List, [], ◌∷◌, ◌++◌, arith,
  Option-cases, is_empty,
}
use vibls_assignment.Common.Text.{Bytes, codes, cat}
use vibls_assignment.Worker.Settings.{new_apply_stage, accepts, Environment, env_or, Libraries}
use vibls_assignment.Process.Migrations.{
  Migrator, applied, no_change, up_failed, no_error, run_migrations, up_error,
}
use vibls_assignment.Process.Effects.{
  exporter, migration, pool, queue_client, queue_server, Effect, opened, closed, warned, migrated,
  analysing, cleaning_up, processing, listening, shutting_down, returned, Process,
}
use vibls_assignment.Process.Open.{still_open, Does, required-Does, then-Does, closing_after-Does}
use vibls_assignment.Process.Telemetry.{
  TracingLibrary, TracerProvider, init_tracer_provider, otlp_endpoint,
}
use vibls_assignment.Process.Servers.{start_server}

init_tracer_provider-cases :
    (t : TracingLibrary) (env : Environment) (name endpoint : Bytes)
    → let o = init_tracer_provider t env name endpoint in
      ((e : String) × (o ≡ ([], inl e)))
      ⊎ (((e : String) × (o ≡ (opened exporter ∷ closed exporter ∷ [], inl e)))
          ⊎ ((tracer : TracerProvider) × (o ≡ (opened exporter ∷ [], inr tracer))))
unfolding init_tracer_provider
init_tracer_provider-cases t env name endpoint =
    let environment = env_or env "DEPLOY_ENV" (codes "development") in
    elim (Option-cases (t.new_exporter endpoint)) [
      | inr (e, failed) ↦ inl (cat "create otlp exporter: " e, ground (arith, failed))
      | inl made ↦ elim (Option-cases (t.new_resource name environment)) [
        | inr (e, failed) ↦ inr (inl (cat "create resource: " e, ground (arith, made, failed)))
        | inl described ↦ inr (
            inr (
              record { endpoint = endpoint; service_name = name; environment = environment },
              ground (arith, made, described),
            ))
      ]
    ]

-- With the tracing around it, a process that returns has its own effects behind nothing, behind an
-- exporter that is closed at once, or around which the exporter is open.
traced-returned :
    (t : TracingLibrary) (env : Environment) (name endpoint : Bytes) (k : Process)
    (es : List Effect)
    → Does es k
    → (traced (init_tracer_provider t env name endpoint) k).ending ≡ returned
    → let all = (traced (init_tracer_provider t env name endpoint) k).effects in
      let warning = warned "failed to init tracing, continuing without" in
      (all ≡ warning ∷ es)
      ⊎ ((all ≡ opened exporter ∷ closed exporter ∷ warning ∷ es)
          ⊎ (all ≡ opened exporter ∷ (es ++ closed exporter ∷ [])))
traced-returned t env name endpoint k es n = elim (init_tracer_provider-cases t env name endpoint) [
  | inl (e, failed) ↦ rw failed (λ h. inl (rw (n h) refl))
  | inr (inl (e, failed)) ↦ rw failed (λ h. inr (inl (rw (n h) refl)))
  | inr (inr (tracer, made)) ↦ rw made (λ h. inr (inr (rw (h, n h) refl)))
]

migrating-Does :
    (m : Migrator) (url : Bytes) (k : Process) (es : List Effect)
    → Does es k
    → Does (opened migration ∷ migrated ∷ es) (migrating (run_migrations m url) k)
unfolding run_migrations
migrating-Does m url k es n = elim (Option-cases m.source_error) [
  | inr (e, failed) ↦ rw failed (λ h. cc)
  | inl source ↦ elim (Option-cases (m.instance_error url)) [
    | inr (e, failed) ↦ rw (source, failed) (λ h. cc)
    | inl made ↦
        rw (source, made)
          (elim (m.up url)
            as (λ u.
              Does (opened migration ∷ migrated ∷ es)
                (migrating (opened migration ∷ [], up_error u) k)) [
                  | applied ↦ λ h. rw (n h) refl
                  | no_change ↦ λ h. rw (n h) refl
                  | up_failed e ↦ λ h. cc
                ])
  ]
]

module _ (l : Libraries) (t : TracingLibrary) (env : Environment) where
  serve_until_signal-Does :
      (http : HttpServer) (address : Bytes)
      → Does (listening address ∷ shutting_down ∷ []) (serve_until_signal l t env http address)
  serve_until_signal-Does http address = elim (Option-cases http.listen_error) [
    | inr (e, failed) ↦ rw failed (λ h. cc)
    | inl ran ↦ elim (Option-cases http.shutdown_error) [
      | inr (e, failed) ↦ rw (ran, failed) (λ h. cc)
      | inl ended ↦ rw (ran, ended) (λ h. refl)
    ]
  ]

  abbrev listen_address : Bytes
  listen_address = codes ":" ++ env_or env "PORT" (codes "8080")

  api_with_policy-Does :
      (http : HttpServer) (policy : Option Bytes)
      → Does (listening listen_address ∷ shutting_down ∷ []) (api_with_policy l t env http policy)
  api_with_policy-Does http none = λ h. cc
  api_with_policy-Does http (some policy) =
      required-Does (accepts l.prepare policy) _ _ (serve_until_signal-Does http listen_address)

  api_body-Does :
      (http : HttpServer)
      → Does
          (opened migration
            ∷ migrated
            ∷ opened pool
            ∷ opened queue_client
            ∷ listening listen_address
            ∷ shutting_down
            ∷ closed queue_client
            ∷ closed pool
            ∷ [])
          (api_body l t env http)
  unfolding api_body
  api_body-Does http =
      let policy = l.read_policy (env_or env "POLICY_PATH" (codes "policies/abac/authz.rego")) in
      migrating-Does l.migrator _ _ _ (
        required-Does _ _ _ (
          then-Does (opened pool) _ (
            closing_after-Does pool _ (
              then-Does (opened queue_client) _
                (closing_after-Does queue_client _ (api_with_policy-Does http policy))))))

  end_of_server-Does :
      (start_error : Option String)
      → Does
          (processing ∷ closed queue_server ∷ [])
          (end_of_server l t env (start_server start_error))
  unfolding start_server
  end_of_server-Does none h = refl
  end_of_server-Does (some e) h = cc

  worker_body-Does :
      (start_error : Option String)
      → Does
          (opened pool
            ∷ opened migration
            ∷ migrated
            ∷ opened queue_server
            ∷ analysing
            ∷ cleaning_up
            ∷ processing
            ∷ closed queue_server
            ∷ closed queue_server
            ∷ closed pool
            ∷ [])
          (worker_body l t env start_error)
  unfolding worker_body
  worker_body-Does start_error =
      let url = env "DATABASE_URL" in
      required-Does (not (is_empty url)) "DATABASE_URL is required" _ (
        required-Does (l.parse_config url) "invalid DATABASE_URL" _ (
          required-Does (l.new_pool url) "failed to create database pool" _ (
            then-Does (opened pool) _ (
              closing_after-Does pool _ (
                migrating-Does l.migrator url _ _ (
                  then-Does (opened queue_server) _ (
                    closing_after-Does queue_server _ (
                      required-Does (no_error (new_apply_stage []).1) "failed to create apply stage"
                        _
                        (then-Does analysing _
                          (then-Does cleaning_up _ (end_of_server-Does start_error)))))))))))

  -- Whatever the libraries answer: when the main program of the API returns, of what it opened (the
  -- exporter of traces, the connections to the database, the queue's client) one thing is still
  -- open, the instance of golang-migrate with its connection to the database.
  pub run_api-closed :
      (http : HttpServer)
      → (run_api l t env http).ending ≡ returned
      → still_open (run_api l t env http).effects ≡ migration ∷ []
  unfolding run_api still_open
  run_api-closed http h =
      elim (traced-returned t env (codes "deploy-api") (otlp_endpoint env) (api_body l t env http) _
        (api_body-Does http) h) [
          | inl e ↦ rw e refl
          | inr (inl e) ↦ rw e refl
          | inr (inr e) ↦ rw e refl
        ]

  -- Whatever the libraries answer: when the main program of the worker returns, of what it opened
  -- (the exporter of traces, the connections to the database, the queue's server) one thing is still
  -- open, the instance of golang-migrate with its connection to the database.
  pub run_worker-closed :
      (start_error : Option String)
      → (run_worker l t env start_error).ending ≡ returned
      → still_open (run_worker l t env start_error).effects ≡ migration ∷ []
  unfolding run_worker still_open
  run_worker-closed start_error h =
      elim (traced-returned t env (codes "deploy-worker") (otlp_endpoint env)
        (worker_body l t env start_error) _ (worker_body-Does start_error) h) [
          | inl e ↦ rw e refl
          | inr (inl e) ↦ rw e refl
          | inr (inr e) ↦ rw e refl
        ]
