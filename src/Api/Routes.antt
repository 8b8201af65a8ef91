-- ===== src/Api/Routes.antt =====
-- The routes of api/routes, and api/router.py, which puts them together under one prefix.
use Prim.Native.String.{◌++◌ as ◌<>◌}
use nexus_ai_platform.Prelude.{
  String, Bool, true, false, Option, none, some, List, [], ◌∷◌, ◌++◌, map, ◌&&◌, str_eq,
  if◌then◌else◌,
}

-- The functions that handle requests.
pub data Handler : Type 0 where
  generate health readiness metrics rate_limit_check : Handler

-- A route: its method and path, its handler, and whether `enforce_rate_limit` stands among its
-- dependencies.
pub record Route : Type 0 where
  pub method : String
  pub path : String
  pub handler : Handler
  pub guarded : Bool

abbrev pub get : String → Handler → Route
get path handler = record { method = "GET"; path = path; handler = handler; guarded = false }

-- generate.py
unfoldable pub generate_router : List Route
generate_router =
    record { method = "POST"; path = "/generate"; handler = generate; guarded = true } ∷ []

-- health.py
unfoldable pub health_router : List Route
health_router = get "/health" health ∷ get "/ready" readiness ∷ []

-- metrics.py
unfoldable pub metrics_router : List Route
metrics_router = get "/metrics" metrics ∷ []

-- rate_limit.py
unfoldable pub rate_limit_router : List Route
rate_limit_router =
    record {
      method = "GET";
      path = "/rate-limit/check";
      handler = rate_limit_check;
      guarded = true;
    }
    ∷ []

abbrev pub under : String → Route → Route
under prefix route = record route { path = prefix <> route.path }

-- router.py
unfoldable pub api_router : List Route
api_router =
    map (under "/v1") (generate_router ++ health_router ++ metrics_router ++ rate_limit_router)

-- The first route with that method and path.
abbrev pub find_in : List Route → String → String → Option Route
find_in [] method path = none
find_in (route ∷ routes) method path =
    if str_eq route.method method && str_eq route.path path
    then some route
    else find_in routes method path
