-- ===== src/Process/Telemetry.antt =====
-- InitTracerProvider of internal/tracing/tracing.go, and the loggers of internal/logger/logger.go.
-- OpenTelemetry and zerolog are outside.
use vibls_assignment.Common.{
  String, ◌⊎◌, inl, inr, Option, none, some, List, [], ◌∷◌, ◌++◌, ◌==◌, if◌then◌else◌,
}
use vibls_assignment.Common.Text.{Bytes, codes, cat}
use vibls_assignment.Worker.Settings.{Environment, env_or}
use vibls_assignment.Process.Effects.{exporter, Effect, opened, closed}

-- The errors of the two calls that can fail.
pub record TracingLibrary : Type 0 where
  pub new_exporter : Bytes → Option String
  pub new_resource : (service_name environment : Bytes) → Option String

pub record TracerProvider : Type 0 where
  pub endpoint : Bytes
  pub service_name : Bytes
  pub environment : Bytes

-- The exporter is shut down if the resource cannot be made.
unfoldable pub init_tracer_provider :
    TracingLibrary
    → Environment
    → (service_name otlp_endpoint : Bytes) → List Effect × (String ⊎ TracerProvider)
init_tracer_provider t env service_name otlp_endpoint = elim (t.new_exporter otlp_endpoint) [
  | some e ↦ ([], inl (cat "create otlp exporter: " e))
  | none ↦
      let environment = env_or env "DEPLOY_ENV" (codes "development") in
      elim (t.new_resource service_name environment) [
        | some e ↦ (opened exporter ∷ closed exporter ∷ [], inl (cat "create resource: " e))
        | none ↦ (
          opened exporter ∷ [],
          inr (record {
            endpoint = otlp_endpoint;
            service_name = service_name;
            environment = environment;
          }),
        )
      ]
]

-- otlpEndpoint of both main programs.
abbrev pub otlp_endpoint : Environment → Bytes
otlp_endpoint env = env "OTLP_ENDPOINT"

pub data Level : Type 0 where
  debug_level info_level warn_level error_level : Level

pub record Logger : Type 0 where
  pub level : Level
  pub fields : List (String × String)

-- Levels are those of zerolog, by their names.
abbrev pub level_of : String → Level
level_of level =
    if level == "debug"
    then debug_level
    else (if level == "warn"
        then warn_level
        else (if level == "error" then error_level else info_level))

abbrev pub new_logger : String → Logger
new_logger level = record { level = level_of level; fields = [] }

abbrev with_field : String → String → Logger → Logger
with_field key value l = record l { fields = l.fields ++ (key, value) ∷ [] }

unfoldable pub with_job_id : Logger → String → Logger
with_job_id l job_id = with_field "job_id" job_id l

unfoldable pub with_component : Logger → String → Logger
with_component l component = with_field "component" component l

-- A context, as far as it holds the value under loggerKey.
pub record Context : Type 0 where
  pub logger : Option Logger

unfoldable pub from_context : Context → Logger
from_context ctx = elim ctx.logger [ some l ↦ l | none ↦ new_logger "info" ]

unfoldable pub to_context : Context → Logger → Context
to_context ctx l = record ctx { logger = some l }
