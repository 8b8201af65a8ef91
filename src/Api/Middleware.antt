-- ===== src/Api/Middleware.antt =====
-- api/middleware.py: correlation of requests and the HTTP metrics. The log lines, and the context
-- variables that only they read, are left out.
use nexus_ai_platform.Prelude.{
  ℕ, String, Option, none, some, List, [], ◌∷◌, Dict, lookup, insert, lookup-insert, ◌≡◌, refl,
  str_eq, eq_iff, if◌then◌else◌, Bool-cases, inl, inr, subst, sym, false,
}
use nexus_ai_platform.Errors.{Exception, Result, ok, raise}
use nexus_ai_platform.Floats.{Floats}
use nexus_ai_platform.Cache.Keys.{str}

-- What the middleware reads of a request: `route_path` is the path of the route that was found,
-- if there is one and its path is a text, when the call has come back.
pub record HttpCall : Type 0 where
  pub method : String
  pub request_id_header : Option String
  pub url_path : String
  pub route_path : Option String

-- `headers` has the names in lower case, as Starlette keeps them.
pub record HttpReply : Type 0 where
  pub status_code : ℕ
  pub headers : Dict String

-- An update of one of the two collectors, by its labels.
pub data HttpMetric (F : Type 0) : Type 0 where
  requests_total : String → String → String → HttpMetric F
  request_duration : String → String → F → HttpMetric F

-- What is outside: the clock, the generator of identifiers, and the rest of the application.
pub record Service (fl : Floats) : Type 1 where
  pub State : Type 0
  pub perf_counter : State → fl.F
  pub uuid4 : State → String × State
  pub call_next : HttpCall → State → Result HttpReply × State

-- `_get_route`
unfoldable pub get_route : HttpCall → String
get_route call = elim call.route_path [ none ↦ call.url_path | some path ↦ path ]

module _ (fl : Floats) (service : Service fl) where
  open fl use {F, sub}
  open service use {State, perf_counter, uuid4, call_next}

  abbrev pub fresh_if_empty : String → State → String × State
  fresh_if_empty header s = if str_eq header "" then uuid4 s else (header, s)

  -- `request.headers.get("X-Request-ID") or str(uuid4())`
  unfoldable pub request_id : Option String → State → String × State
  request_id none s = uuid4 s
  request_id (some header) s = fresh_if_empty header s

  -- Both updates for one request.
  unfoldable pub observed : HttpCall → String → F → List (HttpMetric F)
  observed call status elapsed =
      requests_total call.method (get_route call) status
      ∷ request_duration call.method (get_route call) elapsed
      ∷ []

  -- After the application has answered or raised.
  unfoldable pub finish :
      HttpCall
      → String
      → F
      → Result HttpReply × State
      → Result HttpReply × List (HttpMetric F) × State
  finish call id started (raise e, s) =
      (raise e, observed call "500" (sub (perf_counter s) started), s)
  finish call id started (ok reply, s) = (
    ok (record reply { headers = insert "x-request-id" id reply.headers }),
    observed call (str reply.status_code) (sub (perf_counter s) started),
    s,
  )

  unfoldable pub dispatch : HttpCall → State → Result HttpReply × List (HttpMetric F) × State
  dispatch call s =
      let (id, s') = request_id call.request_id_header s in
      finish call id (perf_counter s') (call_next call s')

  -- The identifier under which a request is answered: its own, unless it has none.
  pub data IsIdentified (s : State) : Option String → String × State → Type 0 where
    own : (header : String) → str_eq header "" ≡ false → IsIdentified s (some header) (header, s)
    made_empty : IsIdentified s (some "") (uuid4 s)
    made : IsIdentified s none (uuid4 s)

  -- The route under which a request is counted: the path of the route that was found, or else the
  -- path of the URL.
  pub data IsRoute (call : HttpCall) : String → Type 0 where
    found : (path : String) → call.route_path ≡ some path → IsRoute call path
    not_found : call.route_path ≡ none → IsRoute call call.url_path

  -- What one request leaves behind: one count of it and one duration, both under its method and its
  -- route. An answer passes with its status, which is counted, and with the identifier among its
  -- headers, the others unchanged; an exception passes on, and status 500 is counted.
  pub data IsObserved (call : HttpCall) (id : String) (started : F)
      : Result HttpReply × State → Result HttpReply × List (HttpMetric F) × State → Type 0 where
    passed :
        (route : String) (reply reply' : HttpReply) (t : State)
        → IsRoute call route
        → reply'.status_code ≡ reply.status_code
        → ((header : String)
            → lookup header reply'.headers
              ≡ (if str_eq "x-request-id" header then some id else lookup header reply.headers))
        → IsObserved call id started
            (ok reply, t)
            (
              ok reply',
              requests_total call.method route (str reply.status_code)
                  ∷ request_duration call.method route (sub (perf_counter t) started)
                  ∷ [],
              t,
            )
    failed :
        (route : String) (e : Exception) (t : State)
        → IsRoute call route
        → IsObserved call id started
            (raise e, t)
            (
              raise e,
              requests_total call.method route "500"
                  ∷ request_duration call.method route (sub (perf_counter t) started)
                  ∷ [],
              t,
            )

  request_id-IsIdentified :
      (header : Option String) (s : State) → IsIdentified s header (request_id header s)
  unfolding request_id
  request_id-IsIdentified none s = made
  request_id-IsIdentified (some header) s = elim (Bool-cases (str_eq header "")) [
    | inl empty ↦ rw empty (
        subst (λ h. IsIdentified s (some h) (uuid4 s)) (sym ((eq_iff header "").0 empty))
          made_empty)
    | inr given ↦ rw given (own header given)
  ]

  get_route-IsRoute : (call : HttpCall) → IsRoute call (get_route call)
  unfolding get_route
  get_route-IsRoute call = by_path call.route_path refl
    where
      by_path :
          (o : Option String)
          → call.route_path ≡ o
          → IsRoute call (elim o [ none ↦ call.url_path | some path ↦ path ])
      by_path none e = not_found e
      by_path (some path) e = found path e

  finish-IsObserved :
      (call : HttpCall) (id : String) (started : F) (outcome : Result HttpReply × State)
      → IsObserved call id started outcome (finish call id started outcome)
  unfolding finish observed
  finish-IsObserved call id started (ok reply, t) =
      passed (get_route call) reply
        (record reply { headers = insert "x-request-id" id reply.headers }) t
        (get_route-IsRoute call) refl
        (λ header. lookup-insert "x-request-id" header id reply.headers)
  finish-IsObserved call id started (raise e, t) =
      failed (get_route call) e t (get_route-IsRoute call)

  -- Every request has its own identifier, or a new one if it has none or an empty one; it is passed
  -- on once; one count and one duration are observed under its method and the path of the route that was
  -- found, or of the URL if none was, the count with the answer's status, or 500 when an exception passes; and an answer keeps its status and headers and
  -- gets the identifier.
  pub dispatch-IsObserved :
      (call : HttpCall) (s : State)
      → (id : String) × (s' : State) × IsIdentified s call.request_id_header (id, s')
        × IsObserved call id (perf_counter s') (call_next call s') (dispatch call s)
  unfolding dispatch
  dispatch-IsObserved call s =
      let (id, s') = request_id call.request_id_header s in
      (
        id,
        s',
        request_id-IsIdentified call.request_id_header s,
        finish-IsObserved call id (perf_counter s') (call_next call s'),
      )
