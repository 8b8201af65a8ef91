-- ===== src/Llm/Providers/GeminiReplies.antt =====
-- What the client of llm/providers/gemini.py makes of a reply, and what `generate` leaves behind.
use nexus_ai_platform.Prelude.{ℕ, String, true, Option, ◌≡◌, ◌||◌, ◌==◌, leb, arith}
use nexus_ai_platform.Errors.{Result, ok, ◌>>=◌, ◌>>◌}
use nexus_ai_platform.Llm.Json.{Json, is_falsy}
use nexus_ai_platform.Llm.Http.{HttpClientPool, HttpRequest, HttpResponse, Network}
use nexus_ai_platform.Llm.Models.{LlmResponse}
use nexus_ai_platform.Llm.Gateway.Policy.{worth_retrying}
use nexus_ai_platform.Llm.Providers.Chat.{parse_json, reject_format, respond}
use nexus_ai_platform.Llm.Providers.Replies.{
  is_transient, IsForeseen, parsed, garbled, timed_out, failed, IsAnswered, refused, IsRead,
  at_key-IsRead, at_zero-IsRead, bind-IsRead, guard-IsRead, finish-IsAnswered, branch-IsAnswered,
}
use nexus_ai_platform.Llm.Providers.Answers.{IsOpen, send-IsForeseen}
use nexus_ai_platform.Llm.Providers.Gemini.{
  GeminiProvider, gemini_request, translate, raise_for_status, find_content, read_reply, generate,
}

-- Of a reply with an error status, the gateway tries again after exactly the statuses 429, 500,
-- 502, 503 and 504, whatever the body, as it does for the other providers.
pub gemini_reply-worth_retrying :
    (model : String) (response : HttpResponse)
    → leb 400 response.status_code ≡ true
    → worth_retrying (read_reply model (ok response)) ≡ is_transient response.status_code
unfolding read_reply translate raise_for_status
gemini_reply-worth_retrying model response h = ground arith

find_content-IsRead : (body : Json) → IsRead (find_content body)
unfolding find_content
find_content-IsRead body = bind-IsRead _ (at_key-IsRead "candidates" body) (λ candidates.
    guard-IsRead (is_falsy candidates) _ _ _ (
      bind-IsRead _ (at_zero-IsRead candidates) (λ candidate.
        bind-IsRead _ (at_key-IsRead "content" candidate) (λ content.
          bind-IsRead _ (at_key-IsRead "parts" content) (λ parts.
            guard-IsRead (is_falsy parts) _ _ _
              (bind-IsRead _ (at_zero-IsRead parts) (λ part. at_key-IsRead "text" part)))))))

body-IsAnswered :
    (model : String) {response : HttpResponse}
    → IsForeseen (ok response)
    → IsAnswered (
        parse_json "Gemini" response.json >>= λ body.
        reject_format "Gemini" (find_content body) >>= respond "Gemini" model)
unfolding parse_json
body-IsAnswered model (parsed response body e) =
    rw e (finish-IsAnswered "Gemini" model (find_content-IsRead body))
body-IsAnswered model (garbled response message e) = rw e (refused _ _)

status-IsAnswered :
    (code : ℕ) (m : Result LlmResponse) → IsAnswered m → IsAnswered (raise_for_status code >> m)
unfolding raise_for_status
status-IsAnswered code m h = branch-IsAnswered (code == 401 || code == 403) _ _ m (refused _ _) (
    branch-IsAnswered (code == 429) _ _ m (refused _ _) (
      branch-IsAnswered (code == 500 || code == 502 || code == 503 || code == 504) _ _ m
        (refused _ _) (branch-IsAnswered (leb 400 code) _ _ m (refused _ _) h)))

read_reply-IsAnswered :
    (model : String) (outcome : Result HttpResponse)
    → IsForeseen outcome
    → IsAnswered (read_reply model outcome)
unfolding read_reply translate
read_reply-IsAnswered model _ (parsed response body e) =
    status-IsAnswered response.status_code _ (body-IsAnswered model (parsed response body e))
read_reply-IsAnswered model _ (garbled response message e) =
    status-IsAnswered response.status_code _ (body-IsAnswered model (garbled response message e))
read_reply-IsAnswered model _ timed_out = refused _ _
read_reply-IsAnswered model _ (failed message) = refused _ _

module _ (net : Network)
    (foreseen : (pool : Option HttpClientPool) (request : HttpRequest) (s : net.State)
      → IsOpen pool
      → IsForeseen (net.post pool request s).0) where
  -- With a pool that was not closed, started or not, and a network that behaves as documented,
  -- `generate` answers or raises one of the program's own errors, whatever JSON value the body is,
  -- and leaves a pool that was not closed.
  pub gemini_generate-IsAnswered :
      (p : GeminiProvider) (prompt : String) (s : net.State)
      → IsOpen p.http_client
      → IsAnswered (generate net p prompt s).0 × IsOpen (generate net p prompt s).1.http_client
  unfolding generate
  gemini_generate-IsAnswered p prompt s open_pool =
      let (reply, still) =
        send-IsForeseen net foreseen p.http_client (gemini_request p prompt) s open_pool in
      (read_reply-IsAnswered p.model _ reply, still)
