-- ===== src/Mcp/Index/Guard.antt =====
-- `_text_width`, `_guard_text` and `_guard_json` of mcp_server/bridge_mcp/index.py, over the bytes of a sidecar.
use php_python_ai_bridge.Base.{
  ℕ, zero, suc, ◌+◌, ◌*◌, Bool, true, false, not, ◌&&◌, ◌||◌, List, [], ◌∷◌, Option, none, some,
  leb, ◌==◌, nat_eq, if◌then◌else◌, length, between, is_digit,
}

-- `MAX_SIDECAR_BYTES` and `MAX_JSON_TEXT_BYTES`.
abbrev pub max_sidecar : ℕ
max_sidecar = 64 * 1024 * 1024

abbrev max_json_text : ℕ
max_json_text = 2 * max_sidecar

-- `[0-9a-fA-F]`, and the same without 0.
is_hex_byte : ℕ → Bool
is_hex_byte c = is_digit c || between b'a' b'f' c || between b'A' b'F' c

are_hex : ℕ → List ℕ → Bool
unfolding is_hex_byte
are_hex zero cs = true
are_hex (suc n) [] = false
are_hex (suc n) (c ∷ cs) = is_hex_byte c && are_hex n cs

-- What `_JSON_WIDE` takes behind `\u`: four hexadecimal digits, the first two not both 0.
is_wide_escape : List ℕ → Bool
unfolding are_hex
is_wide_escape (c ∷ d ∷ cs) = are_hex 4 (c ∷ d ∷ cs) && (not (c == b'0') || not (d == b'0'))
is_wide_escape _ = false

-- What `_JSON_WIDTH4` takes behind `\u`: the first half of a pair of surrogates.
is_surrogate_escape : List ℕ → Bool
unfolding are_hex
is_surrogate_escape (c ∷ d ∷ cs) =
    (c == b'd' || c == b'D')
    && (d == b'8' || d == b'9' || d == b'a' || d == b'A' || d == b'b' || d == b'B')
    && are_hex 2 cs
is_surrogate_escape _ = false

abbrev escape : (List ℕ → Bool) → List ℕ → Bool
escape p (c ∷ cs) = c == b'u' && p cs
escape p [] = false

-- A match of `_JSON_WIDE`, and of `_JSON_WIDTH4`, at the start of the bytes.
unfoldable pub starts_wide : List ℕ → Bool
unfolding is_wide_escape
starts_wide [] = false
starts_wide (c ∷ cs) = between 196 244 c || c == b'\\' && escape is_wide_escape cs

starts_width4 : List ℕ → Bool
unfolding is_surrogate_escape
starts_width4 [] = false
starts_width4 (c ∷ cs) = between 240 244 c || c == b'\\' && escape is_surrogate_escape cs

unfoldable pub has_width4 : List ℕ → Bool
unfolding starts_width4
has_width4 [] = false
has_width4 (c ∷ cs) = starts_width4 (c ∷ cs) || has_width4 cs

unfoldable pub text_width : List ℕ → ℕ
unfolding starts_wide has_width4
text_width [] = 1
text_width (c ∷ cs) =
    let rest = text_width cs in
    if starts_wide (c ∷ cs) then if has_width4 (c ∷ cs) then 4 else 2 else rest

-- Whether `_guard_text` returns.
unfoldable pub guard_text : ℕ → ℕ → Bool
guard_text size width = leb (size * width) max_json_text

abbrev longer : Option ℕ → Option ℕ
longer none = none
longer (some n) = some (suc n)

-- A string of `_JSON_TOKENS` behind its first quote, and behind a backslash if `escaped`: the count of
-- bytes up to its end, or `none` where there is no match.
string_length : Bool → List ℕ → Option ℕ
string_length escaped [] = none
string_length true (c ∷ cs) = elim (c == 10) [
  | true ↦ none
  | false ↦ longer (string_length false cs)
]
string_length false (c ∷ cs) = elim (c == b'"') [
  | true ↦ some 1
  | false ↦ longer (string_length (c == b'\\') cs)
]

-- `MAX_JSON_CONTAINERS`, `MAX_JSON_TOKENS` and `MAX_JSON_DEPTH`. The depth is the count of containers
-- less that of the ends.
abbrev within_limits : ℕ → ℕ → ℕ → Bool
within_limits containers ends tokens =
    leb containers (50000 + 8) && leb tokens (50000 * 12 + 128) && leb containers (64 + ends)

-- The loop of `_guard_json`, which passes over `skip` bytes of a string first.
unfoldable pub tokens_ok : ℕ → ℕ → ℕ → ℕ → List ℕ → Bool
unfolding string_length
tokens_ok skip containers ends tokens [] = true
tokens_ok (suc skip) containers ends tokens (c ∷ cs) = tokens_ok skip containers ends tokens cs
tokens_ok zero containers ends tokens (c ∷ cs) = elim (c == b'"') [
  | true ↦ elim (string_length false cs) [
    | none ↦ tokens_ok 0 containers ends tokens cs
    | some n ↦ tokens_ok n containers ends tokens cs
  ]
  | false ↦ elim (c == b'[' || c == b'{') [
    | true ↦
        within_limits (suc containers) ends (suc tokens)
        && tokens_ok 0 (suc containers) ends (suc tokens) cs
    | false ↦ elim (c == b']' || c == b'}') [
      | true ↦
          within_limits containers (suc ends) tokens && tokens_ok 0 containers (suc ends) tokens cs
      | false ↦ elim (c == b',' || c == b':') [
        | true ↦
            within_limits containers ends (suc tokens)
            && tokens_ok 0 containers ends (suc tokens) cs
        | false ↦ tokens_ok 0 containers ends tokens cs
      ]
    ]
  ]
]

-- Whether `_guard_json(data)` returns.
unfoldable pub guard_json : List ℕ → Bool
unfolding text_width guard_text tokens_ok
guard_json bytes = guard_text (length bytes) (text_width bytes) && tokens_ok 0 0 0 0 bytes
