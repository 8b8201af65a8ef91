-- ===== src/Llm/Providers/Replies.antt =====
-- What the providers make of a reply: the clients of llm/providers/mistral.py and groq.py, for any
-- brand.
use nexus_ai_platform.Prelude.{
  ℕ, String, Bool, if◌then◌else◌, true, false, ◌≡◌, ◌||◌, ◌==◌, leb, arith, inl, inr, Bool-cases,
  str_eq,
}
use nexus_ai_platform.Errors.{
  LlmErrorKind, Result, ok, raise, llm_error, value_error, key_error, index_error, type_error,
  httpx_timeout, httpx_request_error, raise_if, ◌>>=◌, ◌>>◌,
}
use nexus_ai_platform.Llm.Json.{
  Json, Fields, null, bool, number, array, object, string, nil, cons, end, field, find_field,
  at_key, at_zero, is_no_list,
}
use nexus_ai_platform.Llm.Http.{HttpResponse}
use nexus_ai_platform.Llm.Models.{LlmResponse}
use nexus_ai_platform.Llm.Gateway.Policy.{worth_retrying}
use nexus_ai_platform.Llm.Providers.Chat.{
  translate, raise_for_status, parse_json, find_content, reject_format, respond, read_reply,
}

-- The statuses of a refusal that may pass by itself.
abbrev pub is_transient : ℕ → Bool
is_transient code = code == 429 || code == 500 || code == 502 || code == 503 || code == 504

-- Of a reply with an error status, the gateway tries again after exactly the statuses 429, 500,
-- 502, 503 and 504, whatever the body.
pub read_reply-worth_retrying :
    (brand model : String) (response : HttpResponse)
    → leb 400 response.status_code ≡ true
    → worth_retrying (read_reply brand model (ok response)) ≡ is_transient response.status_code
unfolding read_reply translate raise_for_status
read_reply-worth_retrying brand model response h = ground arith

-- What a request can come to when httpx behaves as documented: a response, whose body parses or
-- raises a `ValueError`, or one of its own exceptions.
pub data IsForeseen : Result HttpResponse → Type 0 where
  parsed :
      (response : HttpResponse) (body : Json) → response.json ≡ ok body → IsForeseen (ok response)
  garbled :
      (response : HttpResponse) (message : String)
      → response.json ≡ raise (value_error message)
      → IsForeseen (ok response)
  timed_out : IsForeseen (raise httpx_timeout)
  failed : (message : String) → IsForeseen (raise (httpx_request_error message))

-- An answer or a provider's error.
pub data IsAnswered {A : Type 0} : Result A → Type 0 where
  answered : (a : A) → IsAnswered (ok a)
  refused : (kind : LlmErrorKind) (message : String) → IsAnswered (raise (llm_error kind message))

-- What reading the body comes to: a value, a provider's error, or an exception of indexing.
pub data IsRead : Result Json → Type 0 where
  value : (a : Json) → IsRead (ok a)
  error : (kind : LlmErrorKind) (message : String) → IsRead (raise (llm_error kind message))
  key : (message : String) → IsRead (raise (key_error message))
  index : (message : String) → IsRead (raise (index_error message))
  kind_of_value : (message : String) → IsRead (raise (type_error message))

find_field-IsRead : (name : String) (fields : Fields) → IsRead (find_field name fields)
find_field-IsRead name end = key name
find_field-IsRead name (field other a rest) = elim (Bool-cases (str_eq other name)) [
  | inl same ↦ rw same (value a)
  | inr differ ↦ rw differ (find_field-IsRead name rest)
]

pub at_key-IsRead : (name : String) (body : Json) → IsRead (at_key name body)
unfolding at_key
at_key-IsRead name (object fields) = find_field-IsRead name fields
at_key-IsRead name (array _) = kind_of_value _
at_key-IsRead name (string _) = kind_of_value _
at_key-IsRead name null = kind_of_value _
at_key-IsRead name (bool _) = kind_of_value _
at_key-IsRead name (number _) = kind_of_value _

pub at_zero-IsRead : (body : Json) → IsRead (at_zero body)
unfolding at_zero
at_zero-IsRead (array nil) = index _
at_zero-IsRead (array (cons a _)) = value a
at_zero-IsRead (string String.[]) = index _
at_zero-IsRead (string (String.◌∷◌ c _)) = value _
at_zero-IsRead (object _) = key _
at_zero-IsRead null = kind_of_value _
at_zero-IsRead (bool _) = kind_of_value _
at_zero-IsRead (number _) = kind_of_value _

pub bind-IsRead :
    {r : Result Json} (f : Json → Result Json)
    → IsRead r
    → ((a : Json) → IsRead (f a))
    → IsRead (r >>= f)
bind-IsRead f (value a) h = h a
bind-IsRead f (error kind message) h = error kind message
bind-IsRead f (key message) h = key message
bind-IsRead f (index message) h = index message
bind-IsRead f (kind_of_value message) h = kind_of_value message

pub guard-IsRead :
    (b : Bool) (kind : LlmErrorKind) (message : String) (r : Result Json)
    → IsRead r
    → IsRead (raise_if b (llm_error kind message) >> r)
guard-IsRead true kind message r h = error kind message
guard-IsRead false kind message r h = h

find_content-IsRead : (brand : String) (body : Json) → IsRead (find_content brand body)
unfolding find_content
find_content-IsRead brand body = bind-IsRead _ (at_key-IsRead "choices" body) (λ choices.
    guard-IsRead (is_no_list choices) _ _ _ (
      bind-IsRead _ (at_zero-IsRead choices) (λ choice.
        bind-IsRead _ (at_key-IsRead "message" choice)
          (λ message. at_key-IsRead "content" message))))

respond-IsAnswered :
    (brand model : String) (content : Json) → IsAnswered (respond brand model content)
unfolding respond
respond-IsAnswered brand model (string text) = answered _
respond-IsAnswered brand model (array _) = refused _ _
respond-IsAnswered brand model (object _) = refused _ _
respond-IsAnswered brand model null = refused _ _
respond-IsAnswered brand model (bool _) = refused _ _
respond-IsAnswered brand model (number _) = refused _ _

pub finish-IsAnswered :
    (brand model : String) {r : Result Json}
    → IsRead r
    → IsAnswered (reject_format brand r >>= respond brand model)
unfolding reject_format
finish-IsAnswered brand model (value a) = respond-IsAnswered brand model a
finish-IsAnswered brand model (error kind message) = refused kind message
finish-IsAnswered brand model (key message) = refused _ _
finish-IsAnswered brand model (index message) = refused _ _
finish-IsAnswered brand model (kind_of_value message) = refused _ _

body-IsAnswered :
    (brand model : String) {response : HttpResponse}
    → IsForeseen (ok response)
    → IsAnswered (
        parse_json brand response.json >>= λ body.
        reject_format brand (find_content brand body) >>= respond brand model)
unfolding parse_json
body-IsAnswered brand model (parsed response body e) =
    rw e (finish-IsAnswered brand model (find_content-IsRead brand body))
body-IsAnswered brand model (garbled response message e) = rw e (refused _ _)

pub branch-IsAnswered :
    (b : Bool) (x y : Result (Unit {0})) (m : Result LlmResponse)
    → IsAnswered (x >> m)
    → IsAnswered (y >> m)
    → IsAnswered ((if b then x else y) >> m)
branch-IsAnswered true x y m h k = h
branch-IsAnswered false x y m h k = k

status-IsAnswered :
    (brand : String) (code : ℕ) (m : Result LlmResponse)
    → IsAnswered m
    → IsAnswered (raise_for_status brand code >> m)
unfolding raise_for_status
status-IsAnswered brand code m h =
    branch-IsAnswered (code == 401 || code == 403) _ _ m (refused _ _) (
      branch-IsAnswered (code == 429) _ _ m (refused _ _) (
        branch-IsAnswered (code == 500 || code == 502 || code == 503 || code == 504) _ _ m
          (refused _ _) (branch-IsAnswered (leb 400 code) _ _ m (refused _ _) h)))

-- Whatever a foreseen request comes to, and whatever JSON value the body is, the provider answers
-- or raises one of the program's own errors: no exception of httpx or of Python's indexing gets
-- out.
pub read_reply-IsAnswered :
    (brand model : String) (outcome : Result HttpResponse)
    → IsForeseen outcome
    → IsAnswered (read_reply brand model outcome)
unfolding read_reply translate
read_reply-IsAnswered brand model _ (parsed response body e) =
    status-IsAnswered brand response.status_code _
      (body-IsAnswered brand model (parsed response body e))
read_reply-IsAnswered brand model _ (garbled response message e) =
    status-IsAnswered brand response.status_code _
      (body-IsAnswered brand model (garbled response message e))
read_reply-IsAnswered brand model _ timed_out = refused _ _
read_reply-IsAnswered brand model _ (failed message) = refused _ _
