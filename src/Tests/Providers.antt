-- ===== src/Tests/Providers.antt =====
-- Tests of the providers, over a network that answers every request with the same body.
use nexus_ai_platform.Prelude.{[], ◌∷◌, ℕ, String, true, false, Option, some, ◌≡◌, refl, ◌↔◌}
use nexus_ai_platform.Errors.{ok, raise, value_error}
use nexus_ai_platform.Llm.Json.{
  Json, array, object, string, nil, cons, end, field, at_key, at_zero, is_no_list,
}
use nexus_ai_platform.Llm.Http.{HttpClientPool, HttpRequest, HttpResponse, Network, client, start}
use nexus_ai_platform.Prelude.Int.{pos}
use nexus_ai_platform.Llm.Http.{new_pool}
use nexus_ai_platform.Llm.Http.Lifecycle.{starts, closes, run, pool_history}
use nexus_ai_platform.Llm.Gateway.Policy.{worth_retrying}
use nexus_ai_platform.Llm.Providers.Chat.{
  ChatProvider, read_reply, generate, send, ensure_started, find_content, parse_json, respond,
  translate, raise_for_status, reject_format,
}
use nexus_ai_platform.Llm.Providers.Replies.{
  IsForeseen, IsAnswered, parsed, read_reply-worth_retrying,
}
use nexus_ai_platform.Llm.Providers.Answers.{
  IsOpen, IsAccepted, generate-IsAnswered, read_reply_iff,
}
use nexus_ai_platform.Llm.Providers.Gemini
use nexus_ai_platform.Llm.Providers.Gemini.{GeminiProvider}
use nexus_ai_platform.Llm.Providers.GeminiReplies.{
  gemini_reply-worth_retrying, gemini_generate-IsAnswered,
}
use nexus_ai_platform.Tests.Fixtures.{answer, decimals}

abbrev chat_body : String → Json
chat_body text = object (
    field "choices"
      (array (cons (object (field "message" (object (field "content" (string text) end)) end)) nil))
      end)

abbrev reply : HttpResponse
reply = record { status_code = 200; json = ok (chat_body "hi") }

abbrev busy : HttpResponse
busy = record { status_code = 503; json = raise (value_error "no JSON") }

abbrev echo : Network
echo = record { State = ℕ; post = λ pool request s. (ok reply, s) }

abbrev groq_client : ChatProvider ℕ
groq_client = record {
  brand = "Groq";
  base_url = "https://api.groq.com/openai/v1/chat/completions";
  api_key = "k";
  model = "m";
  timeout_seconds = 30000;
  http_client = some (record { client_closed = false; started = false });
}

generated : (generate echo groq_client "hello" 0).0 ≡ ok answer
unfolding generate send ensure_started start client read_reply translate raise_for_status parse_json
    find_content at_key at_zero is_no_list reject_format respond
generated = refl

read_reply-worth_retrying_example : worth_retrying (read_reply "Groq" "m" (ok busy)) ≡ true
read_reply-worth_retrying_example = read_reply-worth_retrying "Groq" "m" busy refl

echo-IsForeseen :
    (pool : Option HttpClientPool) (request : HttpRequest) (s : ℕ)
    → IsOpen pool
    → IsForeseen (echo.post pool request s).0
echo-IsForeseen pool request s h = parsed reply (chat_body "hi") refl

generate-IsAnswered_example :
    IsAnswered (generate echo groq_client "hello" 0).0
    × IsOpen (generate echo groq_client "hello" 0).1.http_client
generate-IsAnswered_example = generate-IsAnswered echo echo-IsForeseen groq_client "hello" 0 refl

read_reply_iff_example :
    (read_reply "Groq" "m" (ok reply) ≡ ok answer) ↔ IsAccepted "m" (ok reply) answer
read_reply_iff_example = read_reply_iff "Groq" "m" (ok reply) answer

abbrev gemini_client : GeminiProvider
gemini_client = record {
  api_key = "k";
  model = "m";
  http_client = some (record { client_closed = false; started = false });
}

gemini_reply-worth_retrying_example : worth_retrying (Gemini.read_reply "m" (ok busy)) ≡ true
gemini_reply-worth_retrying_example = gemini_reply-worth_retrying "m" busy refl

-- The body has no candidates, and that is a provider's error.
gemini_generate-IsAnswered_example :
    IsAnswered (Gemini.generate echo gemini_client "hello" 0).0
    × IsOpen (Gemini.generate echo gemini_client "hello" 0).1.http_client
gemini_generate-IsAnswered_example =
    gemini_generate-IsAnswered echo echo-IsForeseen gemini_client "hello" 0 refl

abbrev fresh : HttpClientPool
fresh = record { client_closed = false; started = false }

fresh_made : new_pool decimals 30000 (pos 100) (pos 20) ≡ ok fresh
unfolding new_pool
fresh_made = refl

-- Started, closed and started again.
pool_history_example :
    ((client (run (starts ∷ closes ∷ starts ∷ []) fresh) ≡ ok tt) ↔ (true ≡ true))
    × ((run (starts ∷ closes ∷ starts ∷ []) fresh).client_closed ≡ true)
pool_history_example =
    pool_history decimals 30000 (pos 100) (pos 20) fresh (starts ∷ closes ∷ starts ∷ []) fresh_made
