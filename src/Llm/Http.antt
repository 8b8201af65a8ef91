-- ===== src/Llm/Http.antt =====
-- llm/http/client.py: the shared pool of HTTP connections, and the network behind it. The client
-- that the pool wraps is httpx's: of it the pool's state has whether it was closed.
pub mod Lifecycle
use nexus_ai_platform.Prelude.{ℕ, String, Bool, true, false, Option, some, Dict, if◌then◌else◌}
use nexus_ai_platform.Prelude.Int.{ℤ, pos, leb_ℤ, ltb_ℤ}
use nexus_ai_platform.Errors.{Result, ok, raise, value_error, runtime_error, raise_if, ◌>>◌}
use nexus_ai_platform.Floats.{Floats, le}
use nexus_ai_platform.Llm.Json.{Json}

pub record HttpClientPool : Type 0 where
  pub client_closed : Bool
  pub started : Bool

pub record HttpRequest : Type 0 where
  pub url : String
  pub headers : Dict String
  pub params : Dict String
  pub json : Json

-- A response: its status, and what `response.json()` returns or raises.
pub record HttpResponse : Type 0 where
  pub status_code : ℕ
  pub json : Result Json

-- `__init__`
unfoldable pub new_pool : (fl : Floats) → fl.F → ℤ → ℤ → Result HttpClientPool
new_pool fl timeout_seconds max_connections max_keepalive_connections = do
  raise_if (le fl timeout_seconds (fl.of_ℕ 0)) (value_error "timeout_seconds must be positive")
  raise_if (leb_ℤ max_connections (pos 0)) (value_error "max_connections must be positive")
  raise_if (leb_ℤ max_keepalive_connections (pos 0))
      (value_error "max_keepalive_connections must be positive")
  raise_if (ltb_ℤ max_connections max_keepalive_connections)
      (value_error "max_keepalive_connections must not exceed max_connections")
  ok (record { client_closed = false; started = false })

-- The property `client`: whether it may be used.
unfoldable pub client : HttpClientPool → Result (Unit {0})
client pool =
    if pool.started then ok tt else raise (runtime_error "HTTP client pool has not been started")

abbrev pub is_started : HttpClientPool → Bool
is_started pool = pool.started

unfoldable pub start : HttpClientPool → HttpClientPool
start pool = if pool.started then pool else record pool { started = true }

unfoldable pub close : HttpClientPool → HttpClientPool
close pool =
    if pool.started
    then record pool { client_closed = true; started = false }
    else record pool { client_closed = true }

-- The network: what a POST by a client of httpx comes to, through a pooled client (which httpx
-- refuses to use once it was closed) or through one made for this request.
pub record Network : Type 1 where
  pub State : Type 0
  pub post : Option HttpClientPool → HttpRequest → State → Result HttpResponse × State

-- The method `post` of the pool.
unfoldable pub post :
    (net : Network) → HttpClientPool → HttpRequest → net.State → Result HttpResponse × net.State
post net pool request s = elim (client pool) [
  | ok _ ↦ net.post (some pool) request s
  | raise e ↦ (raise e, s)
]
