-- ===== src/Mcp/Tools/Texts/Laws.antt =====
-- What the tools of mcp_server/bridge_mcp/tools.py refuse, beside what the worker refuses.
use php_python_ai_bridge.Base.{
  ℕ, ◌+◌, min, ◌≡◌, ◌≤◌, subst, Bool, true, false, List, [], ◌∷◌, map, String, Option, none, some,
  lookup, string_eq, all, ◌&&◌, refl, leb, length, codes, is_blank, if◌then◌else◌, arith,
  length-map, Option-cases, inl, inr,
}
use php_python_ai_bridge.Json.{
  Value, null, boolean, int, negative_int, float, infinite, str, broken_str, arr, obj, items_of,
  items-items_of,
}
use php_python_ai_bridge.Tasks.Validate.{
  text_length, total_length, strings_ok, max_total, fields_ok, is_test_task, rerank_ok, validate,
  pair_ok, top_k_ok, documents_count,
}
use php_python_ai_bridge.Mcp.Tools.Texts.{
  check_loop, check_texts, rerank_of, rerank_input, bridge_rerank, passed_text,
}

within_total : ℕ → Option ℕ → Bool
within_total total none = false
within_total total (some n) = leb (total + n) max_total

-- Not a text with lone surrogates.
abbrev pub is_whole : Value → Bool
is_whole (broken_str n) = false
is_whole _ = true

text_length_lem : (v : Value) → text_length v ≡ (if is_whole v then passed_text v else none)
unfolding text_length passed_text
text_length_lem (str s) = refl
text_length_lem (broken_str n) = refl
text_length_lem null = refl
text_length_lem (boolean b) = refl
text_length_lem (int n) = refl
text_length_lem (negative_int n) = refl
text_length_lem (float negative n k) = refl
text_length_lem infinite = refl
text_length_lem (arr vs) = refl
text_length_lem (obj ms) = refl

check_loop-total_length :
    (total : ℕ) (texts : List Value)
    → within_total total (total_length texts) ≡ (check_loop total texts && all is_whole texts)
unfolding check_loop total_length within_total
check_loop-total_length total [] = ground arith
check_loop-total_length total (text ∷ texts) = elim (Option-cases (passed_text text)) [
  | inl refused ↦ ground (arith, refused, text_length_lem text)
  | inr (n, passes) ↦ elim (Option-cases (total_length texts)) [
    | inl nothing ↦
        ground
          (arith, passes, nothing, text_length_lem text, check_loop-total_length (total + n) texts)
    | inr (m, rest) ↦
        ground
          (arith, passes, rest, text_length_lem text, check_loop-total_length (total + n) texts)
  ]
]

-- The worker's check of a list of texts passes exactly those that a tool's check passes, for the same limit and
-- the same characters beside them, and in which no text holds a lone surrogate: those the tool lets
-- through, and the worker refuses.
pub strings_ok-check_texts :
    (texts : List Value) (limit extra : ℕ)
    → strings_ok limit extra (arr (items_of texts))
      ≡ (check_texts texts limit extra && all is_whole texts)
unfolding check_texts strings_ok within_total
strings_ok-check_texts texts limit extra = ground (
  arith,
  items-items_of texts,
  check_loop-total_length extra texts,
  Option-cases (total_length texts),
)

all-is_whole : (texts : List String) → all is_whole (map str texts) ≡ true
all-is_whole [] = refl
all-is_whole (text ∷ texts) = all-is_whole texts

-- A rerank of texts that pass the check and are whole, with a query that is no blank and not too long, is one
-- that the worker takes.
rerank_of-valid :
    (query : String) (documents : List Value) (limit top_k : ℕ) (test_tasks : Bool)
    → is_blank query ≡ false
    → length (codes query) ≤ 8192
    → limit ≤ 512
    → 1 ≤ top_k
    → top_k ≤ length documents
    → check_texts documents limit (length (codes query)) ≡ true
    → all is_whole documents ≡ true
    → validate "rerank" (rerank_of query documents top_k) test_tasks
      ≡ some (rerank_of query documents top_k)
unfolding validate fields_ok is_test_task rerank_ok pair_ok top_k_ok documents_count text_length
    lookup strings_ok
rerank_of-valid query documents limit top_k test_tasks solid short few some_k k_fits ok whole =
    ground (
      arith,
      solid,
      short,
      few,
      some_k,
      k_fits,
      ok,
      whole,
      strings_ok-check_texts documents limit (length (codes query)),
      items-items_of documents,
    )

pub rerank_input-valid :
    (query : String) (documents : List String) (limit top_k : ℕ) (test_tasks : Bool)
    → is_blank query ≡ false
    → length (codes query) ≤ 8192
    → limit ≤ 512
    → 1 ≤ top_k
    → top_k ≤ length documents
    → check_texts (map str documents) limit (length (codes query)) ≡ true
    → validate "rerank" (rerank_input query documents top_k) test_tasks
      ≡ some (rerank_input query documents top_k)
rerank_input-valid query documents limit top_k test_tasks solid short few some_k k_fits ok =
    rerank_of-valid query (map str documents) limit top_k test_tasks solid short few some_k
      (omega (arith, k_fits, length-map str documents)) ok (all-is_whole documents)

check_texts-some :
    (texts : List Value) (limit extra : ℕ) → check_texts texts limit extra ≡ true → 1 ≤ length texts
unfolding check_texts
check_texts-some texts limit extra h = ground (arith, h)

-- What `bridge_rerank` sends of whole texts, the worker takes.
bridge_rerank-valid :
    (by_value : Bool) (query : String) (documents : List Value) (top_k : ℕ) (test_tasks : Bool)
    (v : Value)
    → all is_whole documents ≡ true
    → bridge_rerank by_value query documents top_k ≡ some v
    → validate "rerank" v test_tasks ≡ some v
unfolding bridge_rerank
bridge_rerank-valid by_value query documents top_k test_tasks v whole h =
    let sent : rerank_of query documents (min top_k (length documents)) ≡ v = ground (arith, h) in
    let ok : check_texts documents (if by_value then 64 else 512) (length (codes query)) ≡ true =
      ground (arith, h) in
    subst (λ w. validate "rerank" w test_tasks ≡ some w) sent
      (rerank_of-valid query documents (if by_value then 64 else 512) (min top_k (length documents))
        test_tasks (ground (arith, h)) (ground (arith, h)) (ground arith)
        (ground (arith, h, check_texts-some documents _ _ ok)) (omega arith) ok whole)
