-- ===== src/Log.antt =====
-- worker/ai_bridge/log.py: the events of the structured log and the fields of their lines.
pub mod Safe
use php_python_ai_bridge.Base.{
  ℕ, Bool, true, false, not, ◌&&◌, ◌||◌, List, [], ◌∷◌, Option, none, some, String, leb, ◌==◌,
  nat_eq, string_eq, between, if◌then◌else◌, lookup,
}
use php_python_ai_bridge.Json.{Value, null, boolean, int, float, str}
use php_python_ai_bridge.Tasks.Validate.{Fields, contains}
use php_python_ai_bridge.Server.Tokens.{is_token_name}
use php_python_ai_bridge.Server.Routes.{is_job_id}

-- `METHODS`, `ROUTES`, `STATUSES` and `TASKS`, and the names of the backends.
abbrev pub methods : List String
methods = "GET" ∷ "POST" ∷ "other" ∷ []

abbrev pub routes : List String
routes =
    "/healthz" ∷ "/readyz" ∷ "/metrics" ∷ "/v1/jobs" ∷ "/v1/jobs/{id}" ∷ "/v1/jobs/{id}/cancel"
    ∷ "other" ∷ []

abbrev pub statuses : List String
statuses = "succeeded" ∷ "failed" ∷ "timed_out" ∷ "cancelled" ∷ []

abbrev pub tasks : List String
tasks =
    "rerank" ∷ "embed" ∷ "redact" ∷ "test.delay" ∷ "test.crash" ∷ "test.error" ∷ "test.inspect" ∷ []

abbrev pub backends : List String
backends = "lexical" ∷ "onnx" ∷ []

abbrev pub network_warning : String
network_warning =
    "Use a TLS reverse proxy with HTTP normalisation and limits, or a co-located client on a private interface; set BRIDGE_TRUST_NETWORK=1 to acknowledge"

-- The keys of each event's lines: `EVENTS`.
unfoldable pub schema : String → Option (List String)
schema name =
    if name == "request"
    then some ("method" ∷ "route" ∷ "status" ∷ "duration_ms" ∷ "owner" ∷ [])
    else if name == "job"
    then some ("job_id" ∷ "task" ∷ "owner" ∷ "job_status" ∷ "queue_ms" ∷ "run_ms" ∷ [])
    else if name == "start"
    then some (
        "backend" ∷ "concurrency" ∷ "capacity" ∷ "result_capacity" ∷ "owner_capacity"
        ∷ "retention_seconds" ∷ "max_jobs" ∷ "drain_seconds" ∷ "tokens" ∷ "network_warning" ∷ [])
    else if name == "stop"
    then some ("cancelled" ∷ [])
    else if name == "drain"
    then some ("duration_ms" ∷ "running" ∷ "interrupted" ∷ [])
    else none

-- `_count`, `_duration`, `_matches` and `_among`.
pub is_count : Value → Bool
is_count (int n) = true
is_count _ = false

unfoldable pub is_duration : Value → Bool
is_duration (int n) = true
is_duration (float negative n k) = not negative || n == 0
is_duration _ = false

unfoldable pub matches : (String → Bool) → Value → Bool
matches p (str s) = p s
matches p _ = false

unfoldable pub among : List String → Value → Bool
among choices = matches (contains choices)

unfoldable pub is_status : Value → Bool
is_status (int n) = between 100 599 n
is_status _ = false

pub is_flag : Value → Bool
is_flag (boolean b) = true
is_flag _ = false

-- `_VALID`, on the keys that the schemas have.
unfoldable pub valid : String → Value → Bool
valid key v =
    if key == "method"
    then among methods v
    else if key == "route"
    then among routes v
    else if key == "status"
    then is_status v
    else if contains ("duration_ms" ∷ "queue_ms" ∷ "run_ms" ∷ "retention_seconds" ∷ []) key
    then is_duration v
    else if key == "owner"
    then matches is_token_name v
    else if key == "job_id"
    then matches is_job_id v
    else if key == "task"
    then among tasks v
    else if key == "job_status"
    then among statuses v
    else if key == "backend"
    then among backends v
    else if key == "network_warning"
    then among (network_warning ∷ []) v
    else if key == "interrupted"
    then is_flag v
    else is_count v

-- A field of a line: the value given, or null where it is missing or not valid.
unfoldable pub field_of : String → Option Value → Value
field_of key none = null
field_of key (some v) = if valid key v then v else null

unfoldable pub line_fields : List String → Fields → Fields
line_fields [] fields = []
line_fields (key ∷ keys) fields = (key, field_of key (lookup key fields)) ∷ line_fields keys fields

-- The fields of `JsonFormatter.format`, after the time and the level; `none` for a record that the filter stops.
unfoldable pub format : String → Fields → Option Fields
format name fields = elim (schema name) [
  | none ↦ none
  | some keys ↦ some (("event", str name) ∷ line_fields keys fields)
]
