-- ===== src/Tasks/Validate.antt =====
-- `validate`, `_text` and `_strings`: which inputs of a task are accepted.
pub mod Accepts
pub mod Laws
use php_python_ai_bridge.Base.{
  ℕ, ◌+◌, ◌*◌, ◌^◌, ◌-◌, Bool, true, false, not, ◌&&◌, ◌||◌, List, [], ◌∷◌, Option, none, some,
  String, leb, ltb, ◌==◌, string_eq, nat_eq, if◌then◌else◌, any, all, length, lookup, codes,
  is_blank, is_some,
}
use php_python_ai_bridge.Json.{
  Value, null, boolean, int, negative_int, float, infinite, str, broken_str, arr, obj, Members,
  members, items,
}

-- `MAX_DOCUMENTS`, `MAX_TEXTS`, `MAX_FIELD_CHARACTERS` and `MAX_TOTAL_CHARACTERS`.
abbrev pub max_documents : ℕ
max_documents = 512

abbrev max_texts : ℕ
max_texts = 32

abbrev pub max_field : ℕ
max_field = 8192

abbrev pub max_total : ℕ
max_total = 200000

abbrev pub Fields : Type 0
Fields = List (String × Value)

abbrev pub contains : List String → String → Bool
contains names k = any (λ n. k == n) names

-- `not set(payload) - {...}`.
abbrev pub only_keys : List String → Fields → Bool
only_keys allowed ms = all (λ m. contains allowed m.0) ms

-- `_text(value, name)`: the length of a text, or `none` where it raises.
unfoldable pub text_length : Value → Option ℕ
text_length (str s) =
    if is_blank s || ltb max_field (length (codes s)) then none else some (length (codes s))
text_length _ = none

unfoldable pub total_length : List Value → Option ℕ
total_length [] = some 0
total_length (v ∷ vs) = elim (text_length v) [
  | none ↦ none
  | some n ↦ elim (total_length vs) [ none ↦ none | some m ↦ some (n + m) ]
]

-- `_strings(values, plural, singular, limit, extra)`: whether it returns.
unfoldable pub strings_ok : ℕ → ℕ → Value → Bool
strings_ok limit extra (arr vs) =
    leb 1 (length (items vs))
    && leb (length (items vs)) limit
    && elim (total_length (items vs)) [ none ↦ false | some n ↦ leb (extra + n) max_total ]
strings_ok limit extra _ = false

-- `math.isfinite` raises `OverflowError` for an int that rounds to no float.
abbrev pub float_limit : ℕ
float_limit = 2 ^ 1024 - 2 ^ 970

unfoldable pub is_beyond_floats : Value → Bool
is_beyond_floats (int n) = leb float_limit n
is_beyond_floats (negative_int n) = leb float_limit n
is_beyond_floats _ = false

-- An int or a finite float from 0 to a whole bound; a bool is neither.
unfoldable pub is_between : ℕ → Value → Bool
is_between hi (int n) = leb n hi
is_between hi (float false n k) = leb n (hi * 2 ^ k)
is_between hi (float true n k) = n == 0
is_between hi _ = false

-- The test of a field that may be left out.
abbrev pub optional : (Value → Bool) → Option Value → Bool
optional p none = true
optional p (some v) = p v

is_str : Value → Bool
is_str (str s) = true
is_str (broken_str n) = true
is_str _ = false

are_strs : Value → Bool
unfolding is_str
are_strs (arr vs) = all is_str (items vs)
are_strs _ = false

-- `task in TEST_TASKS`.
unfoldable pub is_test_task : String → Bool
is_test_task task = contains ("test.delay" ∷ "test.crash" ∷ "test.error" ∷ "test.inspect" ∷ []) task

unfoldable pub test_ok : String → Fields → Bool
unfolding are_strs
test_ok task ms =
    only_keys ("seconds" ∷ "value" ∷ []) ms
    && optional (is_between 10) (lookup "seconds" ms)
    && (not (task == "test.inspect") || optional are_strs (lookup "value" ms))

-- Whether the check of `seconds` is reached and raises `OverflowError`.
unfoldable pub test_overflows : Fields → Bool
test_overflows ms =
    only_keys ("seconds" ∷ "value" ∷ []) ms
    && elim (lookup "seconds" ms) [ none ↦ false | some seconds ↦ is_beyond_floats seconds ]

unfoldable pub embed_ok : Fields → Bool
embed_ok ms =
    only_keys ("texts" ∷ []) ms
    && elim (lookup "texts" ms) [ none ↦ false | some texts ↦ strings_ok max_texts 0 texts ]

abbrev entities : List String
entities = "PER" ∷ "ORG" ∷ "LOC" ∷ []

-- Each of the values is one of the labels, and none that has been seen.
unfoldable pub labels_ok : List String → List Value → Bool
labels_ok seen [] = true
labels_ok seen (str s ∷ vs) =
    contains entities s && (not (contains seen s) && labels_ok (s ∷ seen) vs)
labels_ok seen (_ ∷ vs) = false

unfoldable pub entities_ok : Value → Bool
entities_ok (arr vs) = labels_ok [] (items vs)
entities_ok _ = false

unfoldable pub redact_ok : Fields → Bool
redact_ok ms =
    only_keys ("text" ∷ "entities" ∷ "min_score" ∷ []) ms
    && elim (lookup "text" ms) [ none ↦ false | some text ↦ is_some (text_length text) ]
    && optional entities_ok (lookup "entities" ms)
    && optional (is_between 1) (lookup "min_score" ms)

-- Whether the check of `min_score` is reached and raises `OverflowError`.
unfoldable pub redact_overflows : Fields → Bool
redact_overflows ms =
    only_keys ("text" ∷ "entities" ∷ "min_score" ∷ []) ms
    && elim (lookup "text" ms) [ none ↦ false | some text ↦ is_some (text_length text) ]
    && optional entities_ok (lookup "entities" ms)
    && elim (lookup "min_score" ms) [ none ↦ false | some score ↦ is_beyond_floats score ]

-- `top_k` for a number of documents.
unfoldable pub top_k_ok : ℕ → Value → Bool
top_k_ok count (int k) = leb 1 k && leb k count
top_k_ok count _ = false

unfoldable pub documents_count : Value → ℕ
documents_count (arr vs) = length (items vs)
documents_count _ = 0

unfoldable pub pair_ok : Option Value → Value → Value → Bool
pair_ok top_k query documents = elim (text_length query) [
  | none ↦ false
  | some extra ↦
      strings_ok max_documents extra documents
      && optional (top_k_ok (documents_count documents)) top_k
]

unfoldable pub rerank_ok : Fields → Bool
rerank_ok ms = only_keys ("query" ∷ "documents" ∷ "top_k" ∷ []) ms && elim (lookup "query" ms) [
  | none ↦ false
  | some query ↦ elim (lookup "documents" ms) [
    | none ↦ false
    | some documents ↦ pair_ok (lookup "top_k" ms) query documents
  ]
]

unfoldable pub fields_ok : String → Bool → Fields → Bool
fields_ok task test_tasks ms =
    if test_tasks && is_test_task task
    then test_ok task ms
    else if task == "embed"
    then embed_ok ms
    else if task == "redact"
    then redact_ok ms
    else if task == "rerank"
    then rerank_ok ms
    else false

-- `validate(task, payload, test_tasks)`: the payload, or `none` where it raises `InvalidInput` or `OverflowError`.
unfoldable pub validate : String → Value → Bool → Option Value
validate task (obj ms) test_tasks =
    if fields_ok task test_tasks (members ms) then some (obj ms) else none
validate task _ test_tasks = none

-- Whether `validate` raises `OverflowError`.
unfoldable pub overflows : String → Value → Bool → Bool
overflows task (obj ms) test_tasks =
    if test_tasks && is_test_task task
    then test_overflows (members ms)
    else task == "redact" && redact_overflows (members ms)
overflows task _ test_tasks = false
