-- ===== src/Tasks/Validate/Laws.antt =====
-- `validate` on the inputs of a rerank.
use php_python_ai_bridge.Base.{
  ℕ, ◌+◌, ◌≡◌, ◌≤◌, ◌⊎◌, ◌↔◌, inl, inr, refl, ◌∙◌, ap, subst, Bool, true, false, List, [], ◌∷◌,
  Option, none, some, length, lookup, codes, is_blank, string_eq, arith, Option-cases, Bool-cases,
}
use php_python_ai_bridge.Json.{Value, int, str, arr, obj, Items, items, Members, members}
use php_python_ai_bridge.Tasks.Validate.{
  Fields, only_keys, max_field, text_length, total_length, strings_ok, optional, top_k_ok,
  documents_count, pair_ok, rerank_ok, fields_ok, is_test_task, validate,
}
use php_python_ai_bridge.Tasks.Validate.Accepts.{
  IsText, is_text, TotalText, no_text, more_text, RerankInput,
}

text_length-IsText : (v : Value) (n : ℕ) → text_length v ≡ some n → IsText v n
unfolding text_length
text_length-IsText (str s) n h = elim (Bool-cases (is_blank s)) [
  | inl blank ↦ absurd (ground (arith, h, blank))
  | inr solid ↦
      let small : length (codes s) ≤ max_field = ground (arith, h, solid) in
      let same : length (codes s) ≡ n = ground (arith, h, solid) in
      subst (IsText (str s)) same (is_text solid small)
]
text_length-IsText _ n h = absurd (ground (arith, h))

IsText-text_length : (v : Value) (n : ℕ) → IsText v n → text_length v ≡ some n
unfolding text_length
IsText-text_length v n (is_text solid small) = ground (arith, solid, small)

total_length-TotalText : (vs : List Value) (n : ℕ) → total_length vs ≡ some n → TotalText vs n
unfolding total_length
total_length-TotalText [] n h = subst (TotalText []) (ground (arith, h)) no_text
total_length-TotalText (v ∷ vs) n h = elim (Option-cases (text_length v)) [
  | inl bad ↦ absurd (ground (arith, h, bad))
  | inr (a, good) ↦ elim (Option-cases (total_length vs)) [
    | inl worse ↦ absurd (ground (arith, h, good, worse))
    | inr (b, rest) ↦
        let same : a + b ≡ n = ground (arith, h, good, rest) in
        subst (TotalText (v ∷ vs)) same
          (more_text (text_length-IsText v a good) (total_length-TotalText vs b rest))
  ]
]

TotalText-total_length : (vs : List Value) (n : ℕ) → TotalText vs n → total_length vs ≡ some n
unfolding total_length
TotalText-total_length vs n no_text = refl
TotalText-total_length (v ∷ vs) n (more_text {n = a} {m = b} t ts) =
    ground (arith, IsText-text_length v a t, TotalText-total_length vs b ts)

-- What a test of an optional `top_k` says.
top_k_sound :
    (n : ℕ) (o : Option Value)
    → optional (top_k_ok n) o ≡ true
    → (o ≡ none) ⊎ ((k : ℕ) × (o ≡ some (int k)) × (1 ≤ k) × (k ≤ n))
unfolding top_k_ok
top_k_sound n none h = inl refl
top_k_sound n (some (int k)) h = inr (k, refl, ground (arith, h), ground (arith, h))
top_k_sound n (some _) h = absurd (ground (arith, h))

top_k_complete :
    (n : ℕ) (o : Option Value)
    → (o ≡ none) ⊎ ((k : ℕ) × (o ≡ some (int k)) × (1 ≤ k) × (k ≤ n))
    → optional (top_k_ok n) o ≡ true
unfolding top_k_ok
top_k_complete n o (inl missing) = ap (optional (top_k_ok n)) missing
top_k_complete n o (inr (k, found, lo, hi)) =
    ap (optional (top_k_ok n)) found ∙ ground (arith, lo, hi)

module _ (ms : Fields) (query : Value) (documents : Items)
    (known_fields : only_keys ("query" ∷ "documents" ∷ "top_k" ∷ []) ms ≡ true)
    (has_query : lookup "query" ms ≡ some query)
    (has_documents : lookup "documents" ms ≡ some (arr documents)) where
  pair_sound : pair_ok (lookup "top_k" ms) query (arr documents) ≡ true → RerankInput ms
  unfolding pair_ok strings_ok documents_count
  pair_sound h = elim (Option-cases (text_length query)) [
    | inl bad ↦ absurd (ground (arith, h, bad))
    | inr (a, good) ↦ elim (Option-cases (total_length (items documents))) [
      | inl worse ↦ absurd (ground (arith, h, good, worse))
      | inr (b, rest) ↦ record {
        known_fields = known_fields;
        query = query;
        documents = documents;
        query_length = a;
        total = b;
        has_query = has_query;
        has_documents = has_documents;
        query_IsText = text_length-IsText query a good;
        documents_TotalText = total_length-TotalText (items documents) b rest;
        some_documents = ground (arith, h, good, rest);
        few_documents = ground (arith, h, good, rest);
        fits = ground (arith, h, good, rest);
        top_k_fits =
            top_k_sound (length (items documents)) (lookup "top_k" ms)
              (ground (arith, h, good, rest));
      }
    ]
  ]

not_arr :
    (top_k : Option Value) (query documents : Value)
    → pair_ok top_k query documents ≡ true
    → (vs : Items) × (documents ≡ arr vs)
unfolding pair_ok strings_ok
not_arr top_k query (arr vs) h = (vs, refl)
not_arr top_k query _ h = absurd (ground (arith, h))

rerank_sound : (ms : Fields) → rerank_ok ms ≡ true → RerankInput ms
unfolding rerank_ok
rerank_sound ms h = elim (Option-cases (lookup "query" ms)) [
  | inl missing ↦ absurd (ground (arith, h, missing))
  | inr (query, has_query) ↦ elim (Option-cases (lookup "documents" ms)) [
    | inl missing ↦ absurd (ground (arith, h, has_query, missing))
    | inr (documents, has_documents) ↦
        let known : only_keys ("query" ∷ "documents" ∷ "top_k" ∷ []) ms ≡ true =
          ground (arith, h) in
        let pair : pair_ok (lookup "top_k" ms) query documents ≡ true =
          ground (arith, h, has_query, has_documents) in
        let (vs, is_arr) = not_arr (lookup "top_k" ms) query documents pair in
        pair_sound ms query vs known has_query (has_documents ∙ ap some is_arr)
          (subst (λ d. pair_ok (lookup "top_k" ms) query d ≡ true) is_arr pair)
  ]
]

rerank_complete : (ms : Fields) → RerankInput ms → rerank_ok ms ≡ true
unfolding rerank_ok pair_ok strings_ok documents_count
rerank_complete ms r = ground (
  arith,
  r.known_fields,
  r.has_query,
  r.has_documents,
  IsText-text_length r.query r.query_length r.query_IsText,
  TotalText-total_length (items r.documents) r.total r.documents_TotalText,
  r.some_documents,
  r.few_documents,
  r.fits,
  top_k_complete (length (items r.documents)) (lookup "top_k" ms) r.top_k_fits,
)

-- An object is accepted as the input of a rerank, unchanged, exactly when it has no field but
-- `query`, `documents` and `top_k`, a query and 1 to 512 documents that are texts within their limits,
-- 200000 characters in all, and, if it has a `top_k`, one from 1 to the count of the documents.
pub validate_iff :
    (ms : Members) (test_tasks : Bool)
    → (validate "rerank" (obj ms) test_tasks ≡ some (obj ms)) ↔ RerankInput (members ms)
unfolding validate fields_ok is_test_task
validate_iff ms false = (
  λ h. rerank_sound (members ms) (ground (arith, h)),
  λ r. ground (arith, rerank_complete (members ms) r),
)
validate_iff ms true = (
  λ h. rerank_sound (members ms) (ground (arith, h)),
  λ r. ground (arith, rerank_complete (members ms) r),
)
