-- ===== src/Tasks/Validate/Accepts.antt =====
-- Inputs of a rerank, described without the validator.
use php_python_ai_bridge.Base.{
  ℕ, ◌+◌, ◌≡◌, ◌≤◌, ◌⊎◌, true, false, List, [], ◌∷◌, none, some, String, length, lookup, codes,
  is_blank, string_eq,
}
use php_python_ai_bridge.Json.{Value, int, str, arr, Items, items}
use php_python_ai_bridge.Tasks.Validate.{Fields, only_keys, max_field, max_total, max_documents}

-- The value is a text of that length, not blank and not too long.
pub data IsText : Value → ℕ → Type 0 where
  is_text :
      {s : String}
      → is_blank s ≡ false
      → length (codes s) ≤ max_field
      → IsText (str s) (length (codes s))

-- The values are texts, of that length in all.
pub data TotalText : List Value → ℕ → Type 0 where
  no_text : TotalText [] 0
  more_text :
      {v : Value} {vs : List Value} {n m : ℕ}
      → IsText v n
      → TotalText vs m
      → TotalText (v ∷ vs) (n + m)

-- No field but `query`, `documents` and `top_k`; a query and 1 to 512 documents, 200000 characters in
-- all; and, if there is a `top_k`, a whole number from 1 to the count of the documents.
pub record RerankInput (ms : Fields) : Type 0 where
  pub known_fields : only_keys ("query" ∷ "documents" ∷ "top_k" ∷ []) ms ≡ true
  pub query : Value
  pub documents : Items
  pub query_length : ℕ
  pub total : ℕ
  pub has_query : lookup "query" ms ≡ some query
  pub has_documents : lookup "documents" ms ≡ some (arr documents)
  pub query_IsText : IsText query query_length
  pub documents_TotalText : TotalText (items documents) total
  pub some_documents : 1 ≤ length (items documents)
  pub few_documents : length (items documents) ≤ max_documents
  pub fits : query_length + total ≤ max_total
  pub top_k_fits :
      (lookup "top_k" ms ≡ none)
      ⊎ ((k : ℕ) × (lookup "top_k" ms ≡ some (int k)) × (1 ≤ k) × (k ≤ length (items documents)))
