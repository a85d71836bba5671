-- ===== src/Server/Handler.antt =====
-- `Handler`: `parse_request`, `_authorized`, `_body`, `do_GET` and `do_POST`, over the job store. A handler
-- sends at most one reply; `none` is a connection that ends without one.
pub mod Replies
pub mod Auth
pub mod Shown
pub mod Owners
use php_python_ai_bridge.Base.{
  ℕ, ◌+◌, ◌-◌, ◌*◌, Bool, true, false, not, ◌&&◌, ◌||◌, List, [], ◌∷◌, Option, none, some, String,
  leb, ltb, ◌==◌, string_eq, if◌then◌else◌, any, all, between, length, codes, is_digit, is_some,
  lookup,
}
use Prim.Native.String.{◌++◌ as join}
use php_python_ai_bridge.Json.{
  Value, null, int, arr, obj, Items, item, end_items, Members, member, end_members, members,
}
use php_python_ai_bridge.Tasks.Validate.{contains, only_keys, Fields}
use php_python_ai_bridge.Jobs.Types.{Env, Store, PublicJob}
use php_python_ai_bridge.Jobs.Submit.{
  Reply, accepted, refused, value_error, overflow_error, draining_error, key_error, capacity_error,
}
use php_python_ai_bridge.Jobs.Request.{submit}
use php_python_ai_bridge.Jobs.Service.{
  get, cancel, Readiness, is_ready, is_draining, models_loading, no_idle_child, readiness,
}
use php_python_ai_bridge.Jobs.Snapshot.{snapshot}
use php_python_ai_bridge.Server.Routes.{job_path, cancel_path}
use php_python_ai_bridge.Server.Http.{
  Arrival, stalled, cut_short, no_json, parsed, Method, get_method, post_method, other_method,
  HttpRequest, Body, healthy, ready, not_ready, metrics, a_job, error, Response, is_encodable,
}

abbrev max_body : ℕ
max_body = 262144

-- `_reply`, or `none` where `json.dumps` raises; the metrics go out by `_text`.
pub reply : ℕ → Body → Option Response
unfolding is_encodable
reply status (a_job j) =
    if is_encodable j
    then some (record { status = status; body = a_job j; retry_after = none })
    else none
reply status body = some (record { status = status; body = body; retry_after = none })

-- `_error`.
pub fail : ℕ → String → Option Response
unfolding reply
fail status code = reply status (error code)

pub fail_later : ℕ → String → ℕ → Option Response
fail_later status code seconds =
    some (record { status = status; body = error code; retry_after = some seconds })

-- `do_POST` answers 400 where `_reply` raises a `ValueError`; `do_GET` lets it pass, and nothing is sent.
pub caught : Option Response → Option Response
unfolding fail
caught none = fail 400 "invalid_request"
caught (some r) = some r

-- `[0-9]{1,7}`, and its number.
unfoldable pub is_length : String → Bool
is_length s = between 1 7 (length (codes s)) && all is_digit (codes s)

unfoldable pub number_from : ℕ → List ℕ → ℕ
number_from n [] = n
number_from n (c ∷ cs) = number_from (n * 10 + (c - b'0')) cs

-- `parse_request`, once the standard library has parsed the head.
unfoldable pub head_ok : HttpRequest → Bool
head_ok r =
    r.known_version
    && not r.transfer_encoding
    && leb (length r.content_lengths) 1
    && all is_length r.content_lengths

-- The header that a name is presented with, and the first name whose header is the one presented.
abbrev pub bearer : String → String
bearer token = join "Bearer " token

pub owner_of_header : List (String × String) → String → Option String
owner_of_header [] presented = none
owner_of_header ((name, token) ∷ tokens) presented =
    if presented == bearer token then some name else owner_of_header tokens presented

-- `_authorized`: only a single header counts.
pub authorized : List (String × String) → List String → Option String
authorized tokens (presented ∷ []) = owner_of_header tokens presented
authorized tokens _ = none

-- The keys of every object in a value are distinct: `unique_keys`.
unfoldable mutual
  pub distinct_keys : Value → Bool
  distinct_keys (arr vs) = distinct_items vs
  distinct_keys (obj ms) = distinct_members [] ms
  distinct_keys _ = true

  distinct_items : Items → Bool
  distinct_items end_items = true
  distinct_items (item v vs) = distinct_keys v && distinct_items vs

  distinct_members : List String → Members → Bool
  distinct_members seen end_members = true
  distinct_members seen (member k v ms) =
      not (contains seen k) && (distinct_keys v && distinct_members (k ∷ seen) ms)

-- What `_body` returns or raises.
pub data Read : Type 0 where
  refuses too_large times_out : Read
  fields : Fields → Read

unfoldable pub read_value : Value → Read
read_value (obj ms) = if distinct_keys (obj ms) then fields (members ms) else refuses
read_value _ = refuses

unfoldable pub read_arrival : Arrival → Read
read_arrival stalled = times_out
read_arrival cut_short = refuses
read_arrival no_json = refuses
read_arrival (parsed v) = read_value v

unfoldable pub read_sized : HttpRequest → String → Read
read_sized r size =
    if not (is_length size)
    then refuses
    else if ltb max_body (number_from 0 (codes size))
    then too_large
    else if not (r.content_type == "application/json")
    then refuses
    else read_arrival r.arrival

unfoldable pub read_lengths : HttpRequest → List String → Read
read_lengths r (size ∷ []) = read_sized r size
read_lengths r _ = refuses

-- `_body`.
unfoldable pub read_body : HttpRequest → Read
read_body r = if r.transfer_encoding then refuses else read_lengths r r.content_lengths

unfoldable pub reason_of : Readiness → Option String
reason_of is_ready = none
reason_of is_draining = some "draining"
reason_of models_loading = some "models_loading"
reason_of no_idle_child = some "no_idle_child"

pub ready_reply : Option String → Option Response
ready_reply none = reply 200 ready
ready_reply (some reason) = reply 503 (not_ready reason)

pub job_reply : Option PublicJob → Option Response
job_reply none = fail 404 "not_found"
job_reply (some j) = reply 200 (a_job j)

pub get_job : Env → Option String → String → Store → Option Response × Store
get_job e none owner s = (job_reply none, s)
get_job e (some i) owner s = let (found, t) = get e i owner s in (job_reply found, t)

-- `do_GET`, for a caller that is known.
pub do_get : Env → String → String → Store → Option Response × Store
do_get e path owner s =
    if path == "/healthz"
    then (reply 200 (healthy s.backend), s)
    else if path == "/readyz"
    then (ready_reply (reason_of (readiness s)), s)
    else if path == "/metrics"
    then (reply 200 (metrics (snapshot s)), s)
    else get_job e (job_path path) owner s

-- The replies of `do_POST` to what `submit` returns or raises; `KeyError` is not caught.
pub submit_reply : Reply → Option Response
submit_reply (accepted j) = caught (reply 202 (a_job j))
submit_reply (refused value_error) = fail 400 "invalid_request"
submit_reply (refused overflow_error) = fail 413 "body_too_large"
submit_reply (refused draining_error) = fail_later 503 "draining" 1
submit_reply (refused key_error) = none
submit_reply (refused (capacity_error n)) = fail_later 429 "capacity_exceeded" n

abbrev or_else : Value → Option Value → Value
or_else v none = v
or_else v (some w) = w

abbrev is_null : Value → Bool
is_null null = true
is_null _ = false

-- The fields of a submission: `task` and `input`, and no other but `timeout_ms` and a key that is not null.
unfoldable pub submission_ok : Fields → Bool
submission_ok ms =
    is_some (lookup "task" ms)
    && is_some (lookup "input" ms)
    && only_keys ("task" ∷ "input" ∷ "timeout_ms" ∷ "idempotency_key" ∷ []) ms
    && elim (lookup "idempotency_key" ms) [ none ↦ true | some key ↦ not (is_null key) ]

pub post_submission : Env → Fields → String → Store → Option Response × Store
post_submission e ms owner s =
    let (answer, t) =
      submit e (or_else null (lookup "task" ms)) (or_else null (lookup "input" ms))
        (or_else (int 30000) (lookup "timeout_ms" ms)) (or_else null (lookup "idempotency_key" ms))
        owner s in
    (submit_reply answer, t)

pub cancel_found : Env → Option String → String → Store → Option Response × Store
cancel_found e none owner s = (caught (job_reply none), s)
cancel_found e (some i) owner s =
    let (found, t) = cancel e i owner s in (caught (job_reply found), t)

pub post_cancel : Env → String → Fields → String → Store → Option Response × Store
post_cancel e path [] owner s = cancel_found e (cancel_path path) owner s
post_cancel e path (m ∷ ms) owner s = (fail 400 "invalid_request", s)

pub post_job : Env → Fields → String → Store → Option Response × Store
post_job e ms owner s =
    if s.draining
    then (fail_later 503 "draining" 1, s)
    else if submission_ok ms
    then post_submission e ms owner s
    else (fail 400 "invalid_request", s)

-- `do_POST`, for a caller that is known.
pub do_post : Env → String → Read → String → Store → Option Response × Store
do_post e path refuses owner s = (fail 400 "invalid_request", s)
do_post e path too_large owner s = (fail 413 "body_too_large", s)
do_post e path times_out owner s = (fail 408 "request_timeout", s)
do_post e path (fields ms) owner s =
    if path == "/v1/jobs" then post_job e ms owner s else post_cancel e path ms owner s

pub serve_owner : Env → HttpRequest → Bool → Option String → Store → Option Response × Store
serve_owner e r posts none s = (fail 401 "unauthorized", s)
serve_owner e r true (some owner) s = do_post e r.path (read_body r) owner s
serve_owner e r false (some owner) s = do_get e r.path owner s

pub serve_method :
    Env → List (String × String) → HttpRequest → Method → Store → Option Response × Store
serve_method e tokens r get_method s = serve_owner e r false (authorized tokens r.authorization) s
serve_method e tokens r post_method s = serve_owner e r true (authorized tokens r.authorization) s
serve_method e tokens r other_method s = (fail 405 "method_not_allowed", s)

-- A request whose head the standard library has parsed: `parse_request`, then `do_GET`, `do_POST` or
-- `send_error(501)`.
pub serve_request : Env → List (String × String) → HttpRequest → Store → Option Response × Store
serve_request e tokens r s =
    if head_ok r then serve_method e tokens r r.method s else (fail 400 "invalid_request", s)
