-- ===== src/Samples/Server.antt =====
-- Examples of what holds of the service, and tests of its parts.
use Prim.Native.String.{◌++◌ as join}
use php_python_ai_bridge.Base.{
  ℕ, ◌+◌, ◌≡◌, ◌≤◌, ◌↔◌, refl, Bool, true, false, List, [], ◌∷◌, ◌++◌, none, some, String, arith,
  count, length, codes, lookup, discard, string_eq, string_beq_iff, nat_eq,
}
use php_python_ai_bridge.Json.{
  str, obj, arr, member, item, end_members, end_items, Members, members,
}
use php_python_ai_bridge.Jobs.Types.{Env}
use php_python_ai_bridge.Jobs.Submit.{job_name}
use php_python_ai_bridge.Tasks.Validate.{validate}
use php_python_ai_bridge.Tasks.Validate.Accepts.{RerankInput}
use php_python_ai_bridge.Tasks.Validate.Laws.{validate_iff}
use php_python_ai_bridge.Server.Routes.{job_path, cancel_path, is_hex32}
use php_python_ai_bridge.Server.Routes.Laws.{job_name-paths}
use php_python_ai_bridge.Server.Http.{HttpRequest, post_method, parsed}
use php_python_ai_bridge.Server.Handler.{authorized, bearer, serve_request}
use php_python_ai_bridge.Server.Handler.Auth.{Holds, OneName, authorized_iff}
use php_python_ai_bridge.Server.Handler.Shown.{IsPrivate}
use php_python_ai_bridge.Server.Handler.Owners.{serve_request-IsPrivate}
use php_python_ai_bridge.Server.Tokens.{
  resolve_tokens, choose_tokens, variable, check_tokens, entries, checked_entries, read_entries,
  partition, split_commas, is_token, is_token_name, distinct,
}
use php_python_ai_bridge.Server.Tokens.Laws.{IsTokens, resolve_tokens-IsTokens}
use php_python_ai_bridge.Server.Head.{
  Wire, closed, part, Line, read_line, line_loop, line_end, after_feed, pull, stream,
}
use php_python_ai_bridge.Server.Head.Lines.{seen, first_line, closes, read_line-first_line}
use php_python_ai_bridge.Server.Head.Readline.{
  Head, new_head, readline, read_undone, on_line, request_line, header_line, content_of,
  before_crlf, before_lf, has_crlf, is_crlf, is_empty, is_header, is_field, is_name_byte,
  is_value_byte, max_request_line, max_header_block,
}
use php_python_ai_bridge.Server.Head.Limits.{Reads, none_yet, then_line, total, head_limits}
use php_python_ai_bridge.Server.Slots.{no_connections, Arrived, process_request, end_request}
use php_python_ai_bridge.Server.Slots.Laws.{Run, starts, arrives, ends, IsKept, Run-IsKept}
use php_python_ai_bridge.Server.Stop.{serving_service, signal, drain_step, Service}
use php_python_ai_bridge.Server.Stop.Order.{
  signals, drains, starts as starts_service, is_drain_line, stop_last,
}
use php_python_ai_bridge.Server.Stop.Laws.{Reaches-lines}
use php_python_ai_bridge.Samples.{at, embed_input, empty_store, store_1, first_store-IsSound}
use php_python_ai_bridge.Samples.Jobs.{first_store-KeysMatch}

-- Two names with a token each.
abbrev tokens : List (String × String)
tokens =
    ("ann", "0123456789abcdef0123456789abcdef") ∷ ("bob", "fedcba9876543210fedcba9876543210") ∷ []

abbrev submission : HttpRequest
submission = record {
  method = post_method;
  known_version = true;
  path = "/v1/jobs";
  authorization = bearer "0123456789abcdef0123456789abcdef" ∷ [];
  content_lengths = "70" ∷ [];
  transfer_encoding = false;
  content_type = "application/json";
  arrival = parsed (obj (member "task" (str "embed") (member "input" embed_input end_members)));
}

tokens-OneName : OneName tokens
tokens-OneName = (
  (
    λ h. ground (
      arith,
      (string_beq_iff "0123456789abcdef0123456789abcdef" "fedcba9876543210fedcba9876543210").1 h,
    ),
    tt,
  ),
  (tt, tt),
)

authorized_iff_example :
    (authorized tokens submission.authorization ≡ some "ann")
    ↔ ((token : String) × (submission.authorization ≡ bearer token ∷ []) × Holds "ann" token tokens)
authorized_iff_example = authorized_iff tokens submission.authorization "ann" tokens-OneName

serve_request-IsPrivate_example :
    IsPrivate
      (authorized tokens submission.authorization)
      (serve_request (at 10 "j2") tokens submission store_1)
serve_request-IsPrivate_example =
    serve_request-IsPrivate (at 10 "j2") tokens submission store_1 first_store-IsSound
      first_store-KeysMatch

abbrev rerank_input : Members
rerank_input =
    member "query" (str "red")
      (member "documents" (arr (item (str "a red car") end_items)) end_members)

validate_iff_example :
    (validate "rerank" (obj rerank_input) false ≡ some (obj rerank_input))
    ↔ RerankInput (members rerank_input)
validate_iff_example = validate_iff rerank_input false

abbrev hex_env : Env
hex_env = at 0 "0123456789abcdef0123456789abcdef"

job_name-paths_example :
    (job_path (join "/v1/jobs/" (job_name hex_env empty_store))
      ≡ some (job_name hex_env empty_store))
    × (cancel_path (join "/v1/jobs/" (join (job_name hex_env empty_store) "/cancel"))
        ≡ some (job_name hex_env empty_store))
unfolding is_hex32
job_name-paths_example = job_name-paths hex_env empty_store tt refl

abbrev environment : List (String × String)
environment =
    ("HOME", "/")
    ∷ ("BRIDGE_TOKENS", "ann=0123456789abcdef0123456789abcdef,bob=fedcba9876543210fedcba9876543210")
    ∷ []

resolve_tokens-IsTokens_example :
    IsTokens tokens
    × (lookup "BRIDGE_TOKEN" (resolve_tokens environment (λ path. none)).1 ≡ none)
    × (lookup "BRIDGE_TOKENS" (resolve_tokens environment (λ path. none)).1 ≡ none)
unfolding resolve_tokens choose_tokens variable check_tokens entries checked_entries read_entries
    partition split_commas is_token is_token_name distinct lookup discard
resolve_tokens-IsTokens_example = resolve_tokens-IsTokens environment (λ path. none) tokens refl

-- A head that arrives in two parts.
abbrev head_wire : Wire
head_wire =
    part 71 (codes "ET / HT")
      (part 84 (codes "P/1.0" ++ (13 ∷ 10 ∷ codes "Host: a" ++ (13 ∷ 10 ∷ 13 ∷ 10 ∷ []))) closed)

read_line-first_line_example :
    (r : Line) × (read_line (some 8195) [] head_wire ≡ some r)
    × (seen r ≡ first_line (some 8195) ([] ++ stream head_wire) (closes head_wire))
read_line-first_line_example = read_line-first_line (some 8195) [] head_wire

abbrev first_lines : List (List ℕ)
first_lines =
    (codes "GET / HTTP/1.0" ++ (13 ∷ 10 ∷ []))
    ∷ (codes "Host: a" ++ (13 ∷ 10 ∷ []))
    ∷ (13 ∷ 10 ∷ [])
    ∷ []

abbrev head_after : (rest : List ℕ) (left : ℕ) (done : Bool) → Head
head_after rest left done = record { pending = rest; left = some left; done = done; wire = closed }

head_read : Reads (new_head head_wire) first_lines (head_after [] 16375 true)
unfolding readline read_undone on_line request_line header_line content_of before_crlf before_lf
    has_crlf is_crlf is_empty is_header is_field is_name_byte is_value_byte read_line line_loop
    line_end after_feed pull
head_read =
    then_line none (codes "GET / HTTP/1.0" ++ (13 ∷ 10 ∷ []))
      (head_after (codes "Host: a" ++ (13 ∷ 10 ∷ 13 ∷ 10 ∷ [])) 16384 false) _ refl refl
      (then_line none (codes "Host: a" ++ (13 ∷ 10 ∷ [])) (head_after (13 ∷ 10 ∷ []) 16375 false) _
        refl refl (then_line none (13 ∷ 10 ∷ []) (head_after [] 16375 true) _ refl refl none_yet))

head_limits_example :
    (length (codes "GET / HTTP/1.0" ++ (13 ∷ 10 ∷ [])) ≤ max_request_line + 2)
    × (total ((codes "Host: a" ++ (13 ∷ 10 ∷ [])) ∷ (13 ∷ 10 ∷ []) ∷ []) ≤ max_header_block + 2)
head_limits_example = head_limits head_wire _ _ (head_after [] 16375 true) head_read

abbrev arrived : Arrived
arrived = record { now = 0; sent = true; half_closed = true; started = true }

one_served : Run (7 ∷ []) (end_request 7 (process_request arrived 7 no_connections))
unfolding process_request
one_served = ends 7 refl (arrives arrived 7 starts)

Run-IsKept_example : IsKept (7 ∷ []) (end_request 7 (process_request arrived 7 no_connections))
Run-IsKept_example = Run-IsKept (7 ∷ []) _ one_served

-- A signal, and the first step of the drain.
abbrev signalled : Service
signalled = drain_step 6 true 1 true (signal 5 (serving_service 30))

Reaches-lines_example :
    (count is_drain_line signalled.lines ≤ 1) × (stop_last signalled.lines ≡ true)
Reaches-lines_example = Reaches-lines 30 signalled (drains 6 true 1 true (signals 5 starts_service))
