-- ===== src/Main/App.antt =====
-- `create_app` of main.py.
use nexus_ai_platform.Prelude.{String, Bool, List, [], ◌∷◌}
use nexus_ai_platform.Settings.{Settings}
use nexus_ai_platform.Tracing.{TracerProvider, configure_tracing}
use nexus_ai_platform.Api.Routes.{Route, api_router}

pub data Middleware : Type 0 where
  request_context : Middleware

pub record FastApi : Type 0 where
  pub title : String
  pub description : String
  pub version : String
  pub instrumented : Bool
  pub middleware : List Middleware
  pub routes : List Route

-- The application, and the process's provider of tracers.
unfoldable pub create_app : {F : Type 0} → Settings F → TracerProvider → FastApi × TracerProvider
create_app settings current = (
  record {
    title = "NEXUS AI Platform";
    description =
        "Production-grade AI context, RAG, Redis/Valkey observability and LLMOps platform.";
    version = "0.1.0";
    instrumented = settings.otel_enabled;
    middleware = request_context ∷ [];
    routes = api_router;
  },
  configure_tracing settings current,
)
