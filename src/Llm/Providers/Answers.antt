-- ===== src/Llm/Providers/Answers.antt =====
-- Which replies the clients of llm/providers/mistral.py and groq.py accept, and what `generate`
-- leaves behind.
use nexus_ai_platform.Prelude.{
  ℕ, String, Bool, true, false, Option, none, some, ◌≡◌, refl, ap, ◌∙◌, subst, sym, ◌↔◌, leb, arith,
}
use nexus_ai_platform.Prelude.Int.{pos}
use nexus_ai_platform.Errors.{bind-inv, ok-injective, raise_if-eq-ok, Result, ok, raise}
use nexus_ai_platform.Llm.Json.{
  Json, Items, null, bool, number, array, object, string, nil, cons, at_key, at_zero, is_no_list,
}
use nexus_ai_platform.Llm.Http.{HttpClientPool, HttpRequest, HttpResponse, Network, client, start}
use nexus_ai_platform.Llm.Models.{LlmResponse}
use nexus_ai_platform.Llm.Providers.Chat.{
  ChatProvider, chat_request, ensure_started, send, translate, raise_for_status, parse_json,
  find_content, reject_format, respond, read_reply, generate,
}
use nexus_ai_platform.Llm.Providers.Replies.{IsForeseen, IsAnswered, read_reply-IsAnswered}

-- Whether the client behind the pool, if there is one, was not closed.
abbrev pub IsOpen : Option HttpClientPool → Type 0
IsOpen none = Unit
IsOpen (some pool) = pool.client_closed ≡ false

module _ (net : Network)
    (foreseen : (pool : Option HttpClientPool) (request : HttpRequest) (s : net.State)
      → IsOpen pool
      → IsForeseen (net.post pool request s).0) where
  -- Through a pool that was not closed, the request is made, and the pool stays so.
  pub send-IsForeseen :
      (pool : Option HttpClientPool) (request : HttpRequest) (s : net.State)
      → IsOpen pool
      → IsForeseen (send net pool request s).0 × IsOpen (send net pool request s).1
  unfolding send ensure_started client start
  send-IsForeseen none request s h = (foreseen none request s h, h)
  send-IsForeseen (some pool) request s h = pooled pool.client_closed pool.started h
    where
      pooled :
          (closed started : Bool)
          → closed ≡ false
          → let given : Option HttpClientPool =
              some (record { client_closed = closed; started = started }) in
            IsForeseen (send net given request s).0 × IsOpen (send net given request s).1
      pooled closed true h =
          (foreseen (some (record { client_closed = closed; started = true })) request s h, h)
      pooled closed false h =
          (foreseen (some (record { client_closed = closed; started = true })) request s h, h)

  -- With a pool that was not closed, started or not, and a network that behaves as documented,
  -- `generate` answers or raises one of the program's own errors, and leaves a pool that was not
  -- closed.
  pub generate-IsAnswered :
      {F : Type 0} (p : ChatProvider F) (prompt : String) (s : net.State)
      → IsOpen p.http_client
      → IsAnswered (generate net p prompt s).0 × IsOpen (generate net p prompt s).1.http_client
  unfolding generate
  generate-IsAnswered p prompt s open_pool =
      let (reply, still) = send-IsForeseen p.http_client (chat_request p prompt) s open_pool in
      (read_reply-IsAnswered p.brand p.model _ reply, still)

-- The replies that are accepted, and the response that is made of them: a status below 400, and a
-- JSON body with a text at `choices[0].message.content`, where `choices` is a list.
pub data IsAccepted (model : String) : Result HttpResponse → LlmResponse → Type 0 where
  accepted :
      (response : HttpResponse) (body first message : Json) (rest : Items) (text : String)
      → leb 400 response.status_code ≡ false
      → response.json ≡ ok body
      → at_key "choices" body ≡ ok (array (cons first rest))
      → at_key "message" first ≡ ok message
      → at_key "content" message ≡ ok (string text)
      → IsAccepted model
          (ok response)
          (record { content = text; model = model; input_tokens = pos 0; output_tokens = pos 0 })

raise_for_status-inv :
    (brand : String) (code : ℕ) (u : Unit {0})
    → raise_for_status brand code ≡ ok u
    → leb 400 code ≡ false
unfolding raise_for_status
raise_for_status-inv brand code u e = ground arith

raise_for_status_passes :
    (brand : String) (code : ℕ) → leb 400 code ≡ false → raise_for_status brand code ≡ ok tt
unfolding raise_for_status
raise_for_status_passes brand code h = ground arith

respond-inv :
    (brand model : String) (content : Json) (r : LlmResponse)
    → respond brand model content ≡ ok r
    → (text : String) × (content ≡ string text)
      × (record { content = text; model = model; input_tokens = pos 0; output_tokens = pos 0 } ≡ r)
unfolding respond
respond-inv brand model (string text) r e = (text, refl, ok-injective _ _ e)
respond-inv brand model (array _) r e = cc
respond-inv brand model (object _) r e = cc
respond-inv brand model null r e = cc
respond-inv brand model (bool _) r e = cc
respond-inv brand model (number _) r e = cc

reject_format-inv :
    (brand : String) (r : Result Json) (a : Json) → reject_format brand r ≡ ok a → r ≡ ok a
unfolding reject_format
reject_format-inv brand (ok b) a e = e
reject_format-inv brand (raise x) a e = ground arith

parse_json-inv :
    (brand : String) (r : Result Json) (a : Json) → parse_json brand r ≡ ok a → r ≡ ok a
unfolding parse_json
parse_json-inv brand (ok b) a e = e
parse_json-inv brand (raise x) a e = ground arith

translate-inv :
    (brand : String) (r : Result HttpResponse) (a : HttpResponse)
    → translate brand r ≡ ok a
    → r ≡ ok a
unfolding translate
translate-inv brand (ok b) a e = e
translate-inv brand (raise x) a e = ground arith

first_of_list :
    (choices first : Json)
    → is_no_list choices ≡ false
    → at_zero choices ≡ ok first
    → (rest : Items) × (choices ≡ array (cons first rest))
unfolding is_no_list at_zero
first_of_list (array nil) first h e = cc
first_of_list (array (cons a rest)) first h e =
    (rest, ap (λ x. array (cons x rest)) (ok-injective _ _ e))
first_of_list (object _) first h e = cc
first_of_list (string _) first h e = cc
first_of_list null first h e = cc
first_of_list (bool _) first h e = cc
first_of_list (number _) first h e = cc

find_content-inv :
    (brand : String) (body content : Json)
    → find_content brand body ≡ ok content
    → (first message : Json) × (rest : Items) × (at_key "choices" body
        ≡ ok (array (cons first rest)))
      × (at_key "message" first ≡ ok message)
      × (at_key "content" message ≡ ok content)
unfolding find_content
find_content-inv brand body content e =
    let (choices, found, e1) = bind-inv (at_key "choices" body) _ content e in
    let (listed, e2) = raise_if-eq-ok (is_no_list choices) _ _ e1 in
    let (first, zeroth, e3) = bind-inv (at_zero choices) _ content e2 in
    let (message, inner, last) = bind-inv (at_key "message" first) _ content e3 in
    let (rest, shape) = first_of_list choices first listed zeroth in
    (first, message, rest, found ∙ ap ok shape, inner, last)

read_reply-IsAccepted :
    (brand model : String) (outcome : Result HttpResponse) (r : LlmResponse)
    → read_reply brand model outcome ≡ ok r
    → IsAccepted model outcome r
unfolding read_reply
read_reply-IsAccepted brand model outcome r e =
    let (response, e1, k1) = bind-inv (translate brand outcome) _ r e in
    let (u, e2, k2) = bind-inv (raise_for_status brand response.status_code) _ r k1 in
    let (body, e3, k3) = bind-inv (parse_json brand response.json) _ r k2 in
    let (content, e4, k4) = bind-inv (reject_format brand (find_content brand body)) _ r k3 in
    let (text, is_text, made) = respond-inv brand model content r k4 in
    let (first, message, rest, listed, inner, last) =
      find_content-inv brand body content (reject_format-inv brand _ content e4) in
    subst (λ o. IsAccepted model o r) (sym (translate-inv brand outcome response e1))
      (subst (IsAccepted model (ok response)) made (
        accepted response body first message rest text
          (raise_for_status-inv brand response.status_code u e2)
          (parse_json-inv brand response.json body e3) listed inner (last ∙ ap ok is_text)))

IsAccepted-read_reply :
    (brand model : String) (outcome : Result HttpResponse) (r : LlmResponse)
    → IsAccepted model outcome r
    → read_reply brand model outcome ≡ ok r
unfolding read_reply translate parse_json find_content is_no_list at_zero reject_format respond
IsAccepted-read_reply brand model _ _
      (accepted response body first message rest text low parsed listed inner last) =
    rw (raise_for_status_passes brand response.status_code low, parsed, listed, inner, last)

-- `read_reply` returns a response exactly if there was a reply with a status below 400 and a JSON
-- body that has a list at `choices` whose first item has a text at `message.content`; and the
-- response is that text, of the provider's model.
pub read_reply_iff :
    (brand model : String) (outcome : Result HttpResponse) (r : LlmResponse)
    → (read_reply brand model outcome ≡ ok r) ↔ IsAccepted model outcome r
read_reply_iff brand model outcome r =
    (read_reply-IsAccepted brand model outcome r, IsAccepted-read_reply brand model outcome r)
