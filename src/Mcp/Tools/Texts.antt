-- ===== src/Mcp/Tools/Texts.antt =====
-- `_check_texts` of mcp_server/bridge_mcp/tools.py, and the request of `bridge_rerank`.
pub mod Laws
use php_python_ai_bridge.Base.{
  ℕ, ◌+◌, min, Bool, true, false, ◌&&◌, ◌||◌, List, [], ◌∷◌, map, String, Option, none, some, ltb,
  leb, length, codes, is_blank, not, if◌then◌else◌,
}
use php_python_ai_bridge.Json.{Value, str, broken_str, int, arr, obj, items_of, members_of}

-- `MAX_TEXT_CHARACTERS` and `MAX_TOTAL_CHARACTERS`.
abbrev max_text : ℕ
max_text = 8192

abbrev pub max_total_characters : ℕ
max_total_characters = 200000

-- The length of a text that the loop passes; one with a lone surrogate is not blank.
unfoldable pub passed_text : Value → Option ℕ
passed_text (str s) =
    if is_blank s || ltb max_text (length (codes s)) then none else some (length (codes s))
passed_text (broken_str n) = if ltb max_text n then none else some n
passed_text _ = none

-- The loop, for the total so far, and the test behind it.
unfoldable pub check_loop : ℕ → List Value → Bool
unfolding passed_text
check_loop total [] = leb total max_total_characters
check_loop total (text ∷ texts) = elim (passed_text text) [
  | none ↦ false
  | some n ↦ check_loop (total + n) texts
]

-- Whether `_check_texts(texts, singular, limit, extra)` returns.
unfoldable pub check_texts : List Value → ℕ → ℕ → Bool
unfolding check_loop
check_texts texts limit extra =
    leb 1 (length texts) && leb (length texts) limit && check_loop extra texts

-- The input of a rerank, as the tools send it.
abbrev pub rerank_of : String → List Value → ℕ → Value
rerank_of query documents top_k = obj (
    members_of
      (("query", str query) ∷ ("documents", arr (items_of documents)) ∷ ("top_k", int top_k) ∷ []))

abbrev pub rerank_input : String → List String → ℕ → Value
rerank_input query documents top_k = rerank_of query (map str documents) top_k

-- What `bridge_rerank` sends for documents, behind the checks of the arguments' schema and its own, or
-- `none` where it raises. The documents of a file may be 512, those by value 64.
pub bridge_rerank : Bool → String → List Value → ℕ → Option Value
unfolding check_texts
bridge_rerank by_value query documents top_k =
    if leb (length (codes query)) max_text
      && leb 1 top_k
      && leb top_k 512
      && not (is_blank query)
      && check_texts documents (if by_value then 64 else 512) (length (codes query))
    then some (rerank_of query documents (min top_k (length documents)))
    else none
