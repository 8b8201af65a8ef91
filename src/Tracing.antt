-- ===== src/Tracing.antt =====
-- observability/tracing.py: the process's provider of tracers. OpenTelemetry's own objects are values
-- that hold what the program gives them.
pub mod Once
use nexus_ai_platform.Prelude.{String, Bool, true, false, Option, none, some, str_eq, if◌then◌else◌}
use nexus_ai_platform.Settings.{Settings}

-- A provider that the program makes: its resource, and the endpoint of its exporter.
pub record Tracer : Type 0 where
  pub service_name : String
  pub deployment_environment_name : String
  pub exporter_endpoint : Option String

-- What `get_tracer_provider` returns: `proxy` as long as none was set, a provider of the program's,
-- or one that something else has set.
pub data TracerProvider : Type 0 where
  proxy : TracerProvider
  sdk : Tracer → TracerProvider
  foreign : String → TracerProvider

-- `if settings.otel_exporter_otlp_endpoint:`
unfoldable pub exporter_of : Option String → Option String
exporter_of none = none
exporter_of (some endpoint) = if str_eq endpoint "" then none else some endpoint

unfoldable pub tracer_of : {F : Type 0} → Settings F → Tracer
tracer_of settings = record {
  service_name = settings.otel_service_name;
  deployment_environment_name = settings.environment;
  exporter_endpoint = exporter_of settings.otel_exporter_otlp_endpoint;
}

-- After the test of `otel_enabled`.
abbrev pub set_once : Tracer → TracerProvider → TracerProvider
set_once tracer proxy = sdk tracer
set_once tracer (sdk current) = sdk current
set_once tracer (foreign name) = foreign name

unfoldable pub configure_tracing : {F : Type 0} → Settings F → TracerProvider → TracerProvider
configure_tracing settings current =
    if settings.otel_enabled then set_once (tracer_of settings) current else current
