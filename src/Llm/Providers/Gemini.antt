-- ===== src/Llm/Providers/Gemini.antt =====
-- llm/providers/gemini.py
use Prim.Native.String.{◌++◌ as ◌<>◌}
use nexus_ai_platform.Prelude.{ℕ, String, Option, [], ◌∷◌, ◌||◌, ◌==◌, leb, if◌then◌else◌}
use nexus_ai_platform.Text.{is_blank}
use nexus_ai_platform.Cache.Keys.{str}
use nexus_ai_platform.Errors.{
  LlmErrorKind, Result, ok, raise, llm_error, value_error, httpx_timeout, httpx_request_error,
  raise_if, ◌>>=◌, ◌>>◌,
}
use nexus_ai_platform.Llm.Json.{
  Json, array, object, string, nil, cons, end, field, at_key, at_zero, is_falsy,
}
use nexus_ai_platform.Llm.Http.{HttpClientPool, HttpRequest, HttpResponse, Network}
use nexus_ai_platform.Llm.Models.{LlmResponse}
use nexus_ai_platform.Llm.Providers.Chat.{parse_json, reject_format, respond, send}

pub record GeminiProvider : Type 0 where
  pub api_key : String
  pub model : String
  pub http_client : Option HttpClientPool

-- `__init__`
unfoldable pub new_gemini_provider : String → String → Option HttpClientPool → Result GeminiProvider
new_gemini_provider api_key model http_client = do
  raise_if (is_blank api_key) (value_error "Gemini API key must not be empty")
  ok (record { api_key = api_key; model = model; http_client = http_client })

-- `url`, `payload` and `params` in `generate`
unfoldable pub gemini_request : GeminiProvider → String → HttpRequest
gemini_request p prompt = record {
  url = "https://generativelanguage.googleapis.com/v1beta/models/" <> p.model <> ":generateContent";
  headers = [];
  params = ("key", p.api_key) ∷ [];
  json = object (
      field "contents"
        (array (
          cons
            (object
              (field "parts" (array (cons (object (field "text" (string prompt) end)) nil)) end))
            nil))
        end);
}

-- The `except` clauses of the first `try`.
unfoldable pub translate : Result HttpResponse → Result HttpResponse
translate (ok response) = ok response
translate (raise httpx_timeout) = raise (llm_error LlmErrorKind.timeout "Gemini request timed out")
translate (raise (httpx_request_error message)) =
    raise (llm_error LlmErrorKind.unavailable "Gemini HTTP request failed")
translate (raise e) = raise e

-- `_raise_for_status`
unfoldable pub raise_for_status : ℕ → Result (Unit {0})
raise_for_status code =
    if code == 401 || code == 403
    then raise (llm_error LlmErrorKind.authentication "Gemini authentication failed")
    else if code == 429
    then raise (llm_error LlmErrorKind.rate_limit "Gemini rate limit exceeded")
    else if code == 500 || code == 502 || code == 503 || code == 504
    then raise (llm_error LlmErrorKind.unavailable "Gemini service is temporarily unavailable")
    else if leb 400 code
    then raise (llm_error LlmErrorKind.base ("Gemini provider request failed: HTTP " <> str code))
    else ok tt

-- The body of the third `try`.
unfoldable pub find_content : Json → Result Json
find_content body = do
  candidates ← at_key "candidates" body
  raise_if (is_falsy candidates) (llm_error LlmErrorKind.response "Gemini returned no candidates")
  candidate ← at_zero candidates
  content ← at_key "content" candidate
  parts ← at_key "parts" content
  raise_if (is_falsy parts) (llm_error LlmErrorKind.response "Gemini returned no content parts")
  part ← at_zero parts
  at_key "text" part

-- What `generate` does with the outcome of the request. The other `try` blocks and the last test
-- are those of the other providers.
unfoldable pub read_reply : String → Result HttpResponse → Result LlmResponse
read_reply model outcome = do
  response ← translate outcome
  raise_for_status response.status_code
  body ← parse_json "Gemini" response.json
  content ← reject_format "Gemini" (find_content body)
  respond "Gemini" model content

unfoldable pub generate :
    (net : Network)
    → GeminiProvider
    → String
    → net.State
    → Result LlmResponse × GeminiProvider × net.State
generate net p prompt s =
    let (outcome, pool, s') = send net p.http_client (gemini_request p prompt) s in
    (read_reply p.model outcome, record p { http_client = pool }, s')
