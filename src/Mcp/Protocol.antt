-- ===== src/Mcp/Protocol.antt =====
-- `Bridge` of mcp_server/bridge_mcp/protocol.py: `_request` behind the HTTP library, the checks of `_job`,
-- and the calls made of them. A body is the members of a JSON object.
pub mod Requests
pub mod Jobs
use Prim.Native.Char.{code}
use php_python_ai_bridge.Base.{
  ℕ, zero, suc, ◌+◌, ◌*◌, ◌-◌, ◌^◌, Bool, true, false, not, ◌&&◌, ◌||◌, List, [], ◌∷◌, Option, none,
  some, String, ltb, leb, ◌==◌, nat_eq, string_eq, if◌then◌else◌, length, all, between, is_lower,
  is_digit, is_upper, is_space, codes, is_some,
}
use php_python_ai_bridge.Json.{
  Value, null, boolean, int, float, str, obj, Members, members, field, is_name, whole, text_count,
  text_is,
}
use php_python_ai_bridge.Server.Routes.{is_job_id}
use php_python_ai_bridge.Tasks.Validate.{contains}

abbrev pub Body : Type 0
Body = List (String × Value)

-- What a call to the worker comes to: the body, or a `BridgeError`, or an exception of another class.
pub data Result : Type 0 where
  ok : Body → Result
  bridge_error : (code : String) (status retry_after : Option ℕ) → Result
  raised : Result

-- What `json.loads` makes of the bytes of an answer: a value, or a `ValueError`, or a `RecursionError` for arrays
-- and objects that are nested deeper than Python's limit.
pub data Decoded : Type 0 where
  json_value : Value → Decoded
  not_json too_deep : Decoded

-- A body to send: none, or its bytes, or one that `json.dumps` or `encode` refuses.
pub data Payload : Type 0 where
  no_payload : Payload
  bytes : ℕ → Payload
  unencodable : Payload

-- The answer of the HTTP library: the status, the media type's text, the values of Retry-After, the bytes
-- of the body, and what `json.loads` makes of them.
pub record Response : Type 0 where
  pub status : ℕ
  pub content_type : String
  pub retry_after : List String
  pub raw : ℕ
  pub decoded : Decoded

-- The code points before a semicolon, without white space around them and in lower case.
before_semicolon : List ℕ → List ℕ
before_semicolon [] = []
before_semicolon (c ∷ cs) = let rest = before_semicolon cs in if c == b';' then [] else c ∷ rest

drop_space : (ℕ → Bool) → List ℕ → List ℕ
drop_space p [] = []
drop_space p (c ∷ cs) = let rest = drop_space p cs in if p c then rest else c ∷ cs

trim_space : (ℕ → Bool) → List ℕ → List ℕ
trim_space p [] = []
trim_space p (c ∷ cs) = elim (trim_space p cs) [
  | [] ↦ if p c then [] else c ∷ []
  | d ∷ ds ↦ c ∷ d ∷ ds
]

abbrev lower : ℕ → ℕ
lower c = if is_upper c then c + 32 else c

same_lower : List ℕ → List ℕ → Bool
same_lower [] [] = true
same_lower (c ∷ cs) (d ∷ ds) = lower c == d && same_lower cs ds
same_lower _ _ = false

pub is_json : String → Bool
unfolding before_semicolon drop_space trim_space same_lower
is_json content_type =
    same_lower (trim_space is_space (drop_space is_space (before_semicolon (codes content_type))))
      (codes "application/json")

-- `RETRY_AFTER.fullmatch(value)` and `int` of its group.
abbrev is_blank_byte : ℕ → Bool
is_blank_byte c = c == 32 || c == 9

abbrev number_loop : ℕ → List ℕ → ℕ
number_loop n [] = n
number_loop n (c ∷ cs) = number_loop (n * 10 + (c - b'0')) cs

retry_seconds : String → Option ℕ
unfolding drop_space trim_space
retry_seconds value =
    let digits = trim_space is_blank_byte (drop_space is_blank_byte (codes value)) in
    if between 1 6 (length digits) && all is_digit digits then some (number_loop 0 digits) else none

-- A repeated Retry-After counts as absent, and so does one that is not for a 429.
pub retry_after_of : ℕ → List String → Option ℕ
unfolding retry_seconds
retry_after_of status (value ∷ []) = if status == 429 then retry_seconds value else none
retry_after_of status _ = none

-- `ERROR_CODE.fullmatch`.
pub is_error_code : String → Bool
is_error_code s = between 1 40 (length (codes s)) && all (λ c. is_lower c || c == b'_') (codes s)

-- The code that is reflected from the body of a refusal.
pub reflected : Option Value → String
unfolding is_error_code
reflected (some (str code)) = if is_error_code code then code else "http_error"
reflected _ = "http_error"

pub error_code : Option Value → String
unfolding reflected
error_code (some (obj ms)) = elim (field "error" (members ms)) [
  | some (obj error) ↦ reflected (field "code" (members error))
  | _ ↦ "http_error"
]
error_code _ = "http_error"

pub body_of : ℕ → Option Value → Result
body_of status (some (obj ms)) = ok (members ms)
body_of status _ = bridge_error "invalid_response" (some status) none

-- Behind the decoding of the body, of which a `ValueError` makes `None`.
pub reflect : Response → Option Value → Result
unfolding retry_after_of error_code body_of
reflect r decoded =
    if not (between 200 299 r.status)
    then bridge_error (error_code decoded) (some r.status) (retry_after_of r.status r.retry_after)
    else body_of r.status decoded

pub decode : Response → Decoded → Result
unfolding reflect
decode r (json_value v) = reflect r (some v)
decode r not_json = reflect r none
decode r too_deep = raised

-- `_request` from the answer on; no answer is a failure of the transport.
pub answered : Option Response → Result
unfolding is_json decode reflect
answered none = bridge_error "transport_error" none none
answered (some r) =
    if ltb 262144 r.raw
    then bridge_error "invalid_response" (some r.status) none
    else if is_json r.content_type
    then decode r r.decoded
    else reflect r none

-- `_request`, for the body to send.
pub request : Payload → Option Response → Result
unfolding answered
request no_payload response = answered response
request unencodable response = raised
request (bytes n) response =
    if ltb 262144 n then bridge_error "invalid_request" none none else answered response

-- `TERMINAL` and `STATUSES`.
abbrev terminal : List String
terminal = "succeeded" ∷ "failed" ∷ "timed_out" ∷ "cancelled" ∷ []

abbrev pub statuses : List String
statuses = "queued" ∷ "running" ∷ terminal

abbrev is_obj : Option Value → Bool
is_obj (some (obj ms)) = true
is_obj _ = false

abbrev is_string : Option Value → Bool
is_string v = is_some (text_count v)

abbrev same : Bool → Bool → Bool
same true b = b
same false b = not b

pub id_ok : Option Value → Bool
id_ok (some (str i)) = is_job_id i
id_ok _ = false

pub status_in : List String → Option Value → Bool
status_in names (some (str s)) = contains names s
status_in names _ = false

pub timeout_ok : Option Value → Bool
timeout_ok (some (int n)) = between 100 300000 n
timeout_ok _ = false

-- `error.get` raises for what is neither `None` nor a dictionary.
pub error_ok : Option Value → Bool
error_ok (some null) = true
error_ok (some (obj ms)) =
    is_string (field "code" (members ms)) && is_string (field "message" (members ms))
error_ok _ = false

pub progress_ok : Option Value → Bool
progress_ok (some null) = true
progress_ok (some (obj ms)) = elim (whole (field "completed" (members ms))) [
  | none ↦ false
  | some completed ↦ elim (whole (field "total" (members ms))) [
    | none ↦ false
    | some total ↦ leb completed total && leb 1 total
  ]
]
progress_ok _ = false

-- Whether `_job(body)` returns the body.
pub job_ok : Body → Bool
unfolding id_ok status_in timeout_ok error_ok progress_ok
job_ok b =
    is_some (field "result" b)
    && id_ok (field "id" b)
    && is_name (field "task" b)
    && status_in statuses (field "status" b)
    && timeout_ok (field "timeout_ms" b)
    && same (status_in ("succeeded" ∷ []) (field "status" b)) (is_obj (field "result" b))
    && same (status_in ("failed" ∷ "timed_out" ∷ []) (field "status" b)) (is_obj (field "error" b))
    && error_ok (field "error" b)
    && progress_ok (field "progress" b)

-- `submit` behind its request, for a job that was asked for.
pub submitted : String → ℕ → Result → Result
unfolding job_ok
submitted task timeout_ms (ok b) =
    if not (between 100 300000 timeout_ms)
    then raised
    else if job_ok b
        && text_is task (field "task" b)
        && text_is "queued" (field "status" b)
        && whole_is timeout_ms (whole (field "timeout_ms" b))
    then ok b
    else raised_invalid
  where
    raised_invalid : Result
    raised_invalid = bridge_error "invalid_response" none none

    whole_is : ℕ → Option ℕ → Bool
    whole_is n none = false
    whole_is n (some m) = m == n
submitted task timeout_ms failure = if between 100 300000 timeout_ms then failure else raised

-- `get` and `cancel` behind their requests, for a job's id.
unfoldable fetched : String → Result → Result
unfolding job_ok
fetched job_id (ok b) =
    if not (is_job_id job_id)
    then raised
    else if job_ok b && text_is job_id (field "id" b)
    then ok b
    else bridge_error "invalid_response" none none
fetched job_id failure = if is_job_id job_id then failure else raised

-- `health` behind its request.
unfoldable health : Result → Result
health (ok b) =
    if is_one (field "protocol" b) && is_string (field "backend" b)
    then ok b
    else bridge_error "invalid_response" none none
  where
    is_one : Option Value → Bool
    is_one (some (int n)) = n == 1
    is_one (some (boolean b)) = b
    is_one (some (float false n k)) = n == 2 ^ k
    is_one _ = false
health failure = failure
