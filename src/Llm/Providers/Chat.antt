-- ===== src/Llm/Providers/Chat.antt =====
-- llm/providers/mistral.py and llm/providers/groq.py. The two files have the same code but for the
-- brand's name and address, so one model serves both: `brand` is "Mistral" or "Groq".
use Prim.Native.String.{◌++◌ as ◌<>◌}
use nexus_ai_platform.Prelude.{
  ℕ, String, Option, none, some, [], ◌∷◌, ◌||◌, ◌==◌, leb, if◌then◌else◌,
}
use nexus_ai_platform.Prelude.Int.{pos}
use nexus_ai_platform.Text.{is_blank}
use nexus_ai_platform.Cache.Keys.{str}
use nexus_ai_platform.Errors.{
  LlmErrorKind, Result, ok, raise, llm_error, value_error, key_error, index_error, type_error,
  httpx_timeout, httpx_request_error, raise_if, ◌>>=◌, ◌>>◌,
}
use nexus_ai_platform.Floats.{Floats, le}
use nexus_ai_platform.Llm.Json.{
  Json, array, object, string, nil, cons, end, field, at_key, at_zero, is_no_list,
}
use nexus_ai_platform.Llm.Http.{
  HttpClientPool, HttpRequest, HttpResponse, Network, client, is_started, start,
}
use nexus_ai_platform.Llm.Models.{LlmResponse}

pub record ChatProvider (F : Type 0) : Type 0 where
  pub brand : String
  pub base_url : String
  pub api_key : String
  pub model : String
  pub timeout_seconds : F
  pub http_client : Option HttpClientPool

-- `__init__`
unfoldable pub new_chat_provider :
    (fl : Floats)
    → String
    → String
    → String
    → String
    → fl.F
    → Option HttpClientPool
    → Result (ChatProvider fl.F)
new_chat_provider fl brand base_url api_key model timeout_seconds http_client = do
  raise_if (is_blank api_key) (value_error (brand <> " API key must not be empty"))
  raise_if (le fl timeout_seconds (fl.of_ℕ 0)) (value_error (brand <> " timeout must be positive"))
  ok (record {
    brand = brand;
    base_url = base_url;
    api_key = api_key;
    model = model;
    timeout_seconds = timeout_seconds;
    http_client = http_client;
  })

-- `payload`, `headers` and the address in `generate`
unfoldable pub chat_request : {F : Type 0} → ChatProvider F → String → HttpRequest
chat_request p prompt = record {
  url = p.base_url;
  headers = ("Authorization", "Bearer " <> p.api_key) ∷ ("Content-Type", "application/json") ∷ [];
  params = [];
  json = object (
      field "model" (string p.model) (
        field "messages"
          (array (
            cons (object (field "role" (string "user") (field "content" (string prompt) end))) nil))
          end));
}

-- The pool after `if not self._http_client.is_started: await self._http_client.start()`.
unfoldable pub ensure_started : HttpClientPool → HttpClientPool
ensure_started pool = if is_started pool then pool else start pool

-- The body of the first `try` in `generate`, and the pool as it is left. It serves all providers.
unfoldable pub send :
    (net : Network)
    → Option HttpClientPool
    → HttpRequest
    → net.State
    → Result HttpResponse × Option HttpClientPool × net.State
send net none request s = let (r, s') = net.post none request s in (r, none, s')
send net (some pool) request s =
    let pool' = ensure_started pool in
    elim (client pool') [
      | ok _ ↦ let (r, s') = net.post (some pool') request s in (r, some pool', s')
      | raise e ↦ (raise e, some pool', s)
    ]

-- The `except` clauses of the first `try`.
unfoldable pub translate : String → Result HttpResponse → Result HttpResponse
translate brand (ok response) = ok response
translate brand (raise httpx_timeout) =
    raise (llm_error LlmErrorKind.timeout (brand <> " request timed out"))
translate brand (raise (httpx_request_error message)) =
    raise (llm_error LlmErrorKind.unavailable (brand <> " network request failed: " <> message))
translate brand (raise e) = raise e

-- `_raise_for_status`
unfoldable pub raise_for_status : String → ℕ → Result (Unit {0})
raise_for_status brand code =
    if code == 401 || code == 403
    then raise (llm_error LlmErrorKind.authentication (brand <> " authentication failed"))
    else if code == 429
    then raise (llm_error LlmErrorKind.rate_limit (brand <> " rate limit exceeded"))
    else if code == 500 || code == 502 || code == 503 || code == 504
    then raise (llm_error LlmErrorKind.unavailable (brand <> " service is temporarily unavailable"))
    else if leb 400 code
    then raise
        (llm_error LlmErrorKind.base (brand <> " provider request failed with HTTP " <> str code))
    else ok tt

-- The second `try`: only a `ValueError` of `response.json()` is caught.
unfoldable pub parse_json : String → Result Json → Result Json
parse_json brand (ok value) = ok value
parse_json brand (raise (value_error _)) =
    raise (llm_error LlmErrorKind.response (brand <> " returned invalid JSON"))
parse_json brand (raise e) = raise e

-- The body of the third `try`.
unfoldable pub find_content : String → Json → Result Json
find_content brand body = do
  choices ← at_key "choices" body
  raise_if (is_no_list choices) (llm_error LlmErrorKind.response (brand <> " returned no choices"))
  choice ← at_zero choices
  message ← at_key "message" choice
  at_key "content" message

-- The `except` clauses of the third `try`.
unfoldable pub reject_format : String → Result Json → Result Json
reject_format brand (ok value) = ok value
reject_format brand (raise (key_error _)) =
    raise (llm_error LlmErrorKind.response (brand <> " returned an unexpected response format"))
reject_format brand (raise (index_error _)) =
    raise (llm_error LlmErrorKind.response (brand <> " returned an unexpected response format"))
reject_format brand (raise (type_error _)) =
    raise (llm_error LlmErrorKind.response (brand <> " returned an unexpected response format"))
reject_format brand (raise e) = raise e

-- `if not isinstance(content, str)`, and the response.
unfoldable pub respond : String → String → Json → Result LlmResponse
respond brand model (string content) =
    ok (record { content = content; model = model; input_tokens = pos 0; output_tokens = pos 0 })
respond brand model _ =
    raise (llm_error LlmErrorKind.response (brand <> " response content is not a string"))

-- What `generate` does with the outcome of the request.
unfoldable pub read_reply : String → String → Result HttpResponse → Result LlmResponse
read_reply brand model outcome = do
  response ← translate brand outcome
  raise_for_status brand response.status_code
  body ← parse_json brand response.json
  content ← reject_format brand (find_content brand body)
  respond brand model content

-- `generate`: the provider with its pool as it is left, and the network after the request.
unfoldable pub generate :
    {F : Type 0} (net : Network)
    → ChatProvider F
    → String
    → net.State
    → Result LlmResponse × ChatProvider F × net.State
generate net p prompt s =
    let (outcome, pool, s') = send net p.http_client (chat_request p prompt) s in
    (read_reply p.brand p.model outcome, record p { http_client = pool }, s')
