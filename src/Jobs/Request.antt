-- ===== src/Jobs/Request.antt =====
-- `submit`: the checks of its arguments, and the submission behind them.
pub mod Laws
use php_python_ai_bridge.Base.{
  ℕ, Bool, true, false, ◌&&◌, List, [], ◌∷◌, Option, none, some, String, leb, if◌then◌else◌, all,
  between, length, codes, is_some,
}
use php_python_ai_bridge.Json.{Value, null, int, str}
use php_python_ai_bridge.Tasks.Validate.{contains, validate, overflows}
use php_python_ai_bridge.Jobs.Types.{Env, Store, Settings}
use php_python_ai_bridge.Jobs.Submit.{
  Refusal, Request, Reply, refused, value_error, overflow_error, submit_valid,
}

-- `self._tasks`: the backends have the same three.
abbrev pub task_names : Bool → List String
task_names false = "rerank" ∷ "embed" ∷ "redact" ∷ []
task_names true =
    "rerank" ∷ "embed" ∷ "redact" ∷ "test.delay" ∷ "test.crash" ∷ "test.error" ∷ "test.inspect" ∷ []

-- `IDEMPOTENCY_KEY.fullmatch`.
unfoldable pub is_key : String → Bool
is_key s = between 1 128 (length (codes s)) && all (between 33 126) (codes s)

-- The key that an argument gives, if it gives one; `none` outside where it is refused.
unfoldable pub key_of_value : Value → Option (Option String)
key_of_value null = some none
key_of_value (str s) = if is_key s then some (some s) else none
key_of_value _ = none

unfoldable pub timeout_of_value : Value → Option ℕ
timeout_of_value (int n) = if between 100 300000 n then some n else none
timeout_of_value _ = none

unfoldable pub request_of : String → String → ℕ → Option String → Option Value → Option Request
request_of owner task timeout_ms key none = none
request_of owner task timeout_ms key (some payload) =
    some
      (record { task = task; payload = payload; timeout_ms = timeout_ms; key = key; owner = owner })

unfoldable pub checked_task :
    Settings → String → Value → Option ℕ → Option (Option String) → String → Option Request
checked_task settings task payload (some timeout_ms) (some key) owner =
    request_of owner task timeout_ms key (validate task payload settings.test_tasks)
checked_task settings task payload _ _ owner = none

-- What the checks make of the arguments, an absent key being `None`; `none` where they raise.
unfoldable pub checked : Settings → Value → Value → Value → Value → String → Option Request
checked settings (str task) payload timeout_ms key owner =
    if contains settings.owners owner
    then checked_task settings task payload (timeout_of_value timeout_ms) (key_of_value key) owner
    else none
checked settings _ payload timeout_ms key owner = none

-- What the checks raise where they do; `validate` comes last.
unfoldable pub refusal_of : Settings → Value → Value → Value → Value → String → Refusal
refusal_of settings (str task) payload timeout_ms key owner =
    if contains settings.owners owner
      && is_some (timeout_of_value timeout_ms)
      && is_some (key_of_value key)
      && overflows task payload settings.test_tasks
    then overflow_error
    else value_error
refusal_of settings _ payload timeout_ms key owner = value_error

-- `submit(task, payload, timeout_ms, idempotency_key, owner)`.
unfoldable pub submit : Env → Value → Value → Value → Value → String → Store → Reply × Store
submit e task payload timeout_ms key owner s =
    elim (checked s.settings task payload timeout_ms key owner) [
      | none ↦ (refused (refusal_of s.settings task payload timeout_ms key owner), s)
      | some r ↦ submit_valid e r s
    ]
