-- ===== src/Samples/Log.antt =====
-- A line of the log, of a caller that passes more than it should.
use php_python_ai_bridge.Base.{◌≡◌, refl, List, [], ◌∷◌, String, All, string_eq, lookup}
use php_python_ai_bridge.Json.{null, int, str}
use php_python_ai_bridge.Tasks.Validate.{Fields}
use php_python_ai_bridge.Server.Tokens.{is_token_name}
use php_python_ai_bridge.Log.{
  schema, format, line_fields, field_of, valid, among, matches, is_status, is_duration,
}
use php_python_ai_bridge.Log.Safe.{IsSafe, keys_of, format-IsSafe}

abbrev request_keys : List String
request_keys = "method" ∷ "route" ∷ "status" ∷ "duration_ms" ∷ "owner" ∷ []

abbrev passed : Fields
passed =
    ("status", int 200)
    ∷ ("owner", str "a secret")
    ∷ ("method", str "GET")
    ∷ ("body", str "a secret")
    ∷ []

abbrev written : Fields
written =
    ("event", str "request")
    ∷ ("method", str "GET")
    ∷ ("route", null)
    ∷ ("status", int 200)
    ∷ ("duration_ms", null)
    ∷ ("owner", null)
    ∷ []

format-IsSafe_example : (keys_of written ≡ "event" ∷ request_keys) × All (λ f. IsSafe f.1) written
unfolding schema format line_fields field_of valid among matches is_status is_duration is_token_name
    lookup
format-IsSafe_example = format-IsSafe "request" passed written request_keys refl refl
