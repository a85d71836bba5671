-- ===== src/Samples/Tools.antt =====
-- Examples of the MCP server's tools: a ranking, a redaction, a search and a wait.
use php_python_ai_bridge.Base.{
  ℕ, ◌*◌, ◌+◌, suc, ◌≡◌, refl, Bool, true, false, List, [], ◌∷◌, map, some, none, leb, ltb, arith,
  is_blank, is_space, codes, ◌&&◌, all, length, if◌then◌else◌,
}
use php_python_ai_bridge.Json.{
  Value, null, int, str, broken_str, arr, items_of, text_count, field, whole, is_name,
}
use php_python_ai_bridge.Tasks.Rerank.{rank}
use php_python_ai_bridge.Tasks.Redact.{Candidate, merge, span_of}
use php_python_ai_bridge.Tasks.Validate.{
  validate, strings_ok, total_length, text_length, is_between,
}
use php_python_ai_bridge.Mcp.Tools.Replies.{
  is_number, ranking_of, in_order, rankings_loop, rankings, spans,
}
use php_python_ai_bridge.Mcp.Tools.Replies.Ranked.{rank_reply, rankings-rank}
use php_python_ai_bridge.Mcp.Tools.Replies.Spans.{span_value, redact_reply, spans-merge}
use php_python_ai_bridge.Mcp.Tools.Texts.{check_texts, check_loop, passed_text, rerank_input}
use php_python_ai_bridge.Mcp.Tools.Texts.Laws.{is_whole, strings_ok-check_texts}
use php_python_ai_bridge.Mcp.Tools.Call.{
  Turn, returns, at_capacity, returned, run, run_loop, wanted, next_pause,
}
use php_python_ai_bridge.Mcp.Tools.Call.Laws.{EndsInTime, run_ends}
use php_python_ai_bridge.Mcp.Index.Format.{Chunk}
use php_python_ai_bridge.Mcp.Tools.Search as Searches
use php_python_ai_bridge.Mcp.Tools.Search.Laws.{kept-valid}
use php_python_ai_bridge.Mcp.Tools.Search.Best.{AreBest, unranked-AreBest}

-- Whole numbers in order, and all else below them.
abbrev weight : Value → ℕ
weight (int n) = suc n
weight _ = 0

abbrev weighs : Value → Value → Bool
weighs a b = leb (weight a) (weight b)

weighs_trans : (a b c : Value) → weighs a b ≡ true → weighs b c ≡ true → weighs a c ≡ true
weighs_trans a b c h k = ground (arith, h, k)

weighs_total : (a b : Value) → weighs a b ≡ false → weighs b a ≡ true
weighs_total a b h = ground (arith, h)

abbrev scores : List Value
scores = int 2 ∷ int 9 ∷ int 2 ∷ []

rankings-rank_example :
    rankings weighs (rank_reply "m" (rank weighs scores 2)) 3 2 ≡ some (rank weighs scores 2)
unfolding is_number
rankings-rank_example =
    rankings-rank weighs weighs_trans weighs_total "m" scores 2 (omega arith)
      (refl, (refl, (refl, tt)))

-- A text known by its length, and a score that is always 1.
abbrev text_value : List ℕ → Value
text_value l = broken_str (length l)

abbrev score_value : ℕ → Value
score_value n = int 1

abbrev name_found : List Candidate
name_found =
    record {
      start = 3;
      stop = 6;
      label = codes "PER";
      source = codes "ner";
      score = 9000;
      priority = 1;
    }
    ∷ []

text_value_lem : (l : List ℕ) → text_count (some (text_value l)) ≡ some (length l)
unfolding text_count
text_value_lem l = refl

spans-merge_example :
    spans (redact_reply text_value score_value "m" name_found (codes "Hi Ann")) 6
    ≡ some (map (span_value text_value score_value) (merge name_found))
unfolding span_of is_between
spans-merge_example =
    spans-merge text_value score_value text_value_lem "m" name_found (codes "Hi Ann") (omega arith)
      (omega arith) (omega arith, tt) ((omega arith, omega arith, omega arith, refl), tt)

abbrev two_texts : List Value
two_texts = str "a" ∷ broken_str 3 ∷ []

strings_ok-check_texts_example :
    strings_ok 2 7 (arr (items_of two_texts))
    ≡ (check_texts two_texts 2 7 && all is_whole two_texts)
strings_ok-check_texts_example = strings_ok-check_texts two_texts 2 7

-- The tool's check passes a lone surrogate.
surrogate_test :
    (check_texts two_texts 2 7 ≡ true) × (strings_ok 2 7 (arr (items_of two_texts)) ≡ false)
unfolding check_texts check_loop passed_text strings_ok total_length text_length is_blank is_space
surrogate_test = (refl, refl)

-- Two refusals for lack of capacity, and an answer.
abbrev busy : ℕ → Turn
busy n = record {
  answer = if ltb 1 n then returns null else at_capacity (some n);
  took = 30;
  jitter = λ p. p;
}

run_test : run 50 busy 0 5000 ≡ (returned null, 0 ∷ 280 ∷ 1310 ∷ [])
unfolding run run_loop wanted next_pause
run_test = refl

run_ends_example : EndsInTime 5000 0 (run 50 busy 0 5000)
run_ends_example = run_ends busy 0 5000 50 (λ n p. (omega arith, omega arith)) (omega arith)

-- Two chunks of an index.
abbrev found : List (Searches.Candidate ℕ)
found =
    record { chunk = 4; similarity = 9; text = "ann"; start = 0; stop = 3; source = 0 }
    ∷ record { chunk = 1; similarity = 3; text = "bob"; start = 5; stop = 8; source = 0 }
    ∷ []

kept_test : Searches.kept (λ s. 5) "who" found ≡ found
unfolding Searches.kept Searches.keep
kept_test = refl

kept-valid_example :
    validate "rerank" (rerank_input "who" ("ann" ∷ "bob" ∷ []) 1) false
    ≡ some (rerank_input "who" ("ann" ∷ "bob" ∷ []) 1)
unfolding Searches.kept Searches.keep is_blank is_space
kept-valid_example =
    kept-valid (λ s. 5) "who" found 1 false refl (omega arith)
      ((refl, omega arith), ((refl, omega arith), tt)) (omega arith) (omega arith) (omega arith)

abbrev three_chunks : ℕ → Chunk
three_chunks n = record { source = 0; start = 10 * n; stop = 10 * n + 3; text = "ann" }

leb_trans : (a b c : ℕ) → leb a b ≡ true → leb b c ≡ true → leb a c ≡ true
leb_trans a b c h k = ground (arith, h, k)

leb_total : (a b : ℕ) → leb a b ≡ false → leb b a ≡ true
leb_total a b h = ground (arith, h)

unranked-AreBest_example :
    AreBest leb leb_trans leb_total three_chunks
      (3 ∷ 5 ∷ 4 ∷ [])
      2
      (Searches.unranked (Searches.select leb three_chunks (3 ∷ 5 ∷ 4 ∷ []) 2) 2)
unranked-AreBest_example = unranked-AreBest leb leb_trans leb_total three_chunks (3 ∷ 5 ∷ 4 ∷ []) 2

-- The rerank puts the second candidate first.
reranked_test :
    Searches.reranked weighs found 5 (
      rank_reply "m"
        (record { index = 1; score = int 8 } ∷ record { index = 0; score = int 3 } ∷ []))
    ≡ some (
        record {
          source = 0;
          chunk = 1;
          start = 5;
          stop = 8;
          similarity = 3;
          rerank_score = some (int 8);
        }
        ∷ record {
          source = 0;
          chunk = 4;
          start = 0;
          stop = 3;
          similarity = 9;
          rerank_score = some (int 3);
        }
        ∷ [])
unfolding Searches.reranked Searches.reordered rankings rankings_loop ranking_of in_order is_number
    field whole is_name
reranked_test = refl

-- The same index twice is refused.
repeated_test :
    Searches.reranked weighs found 5 (
      rank_reply "m"
        (record { index = 1; score = int 8 } ∷ record { index = 1; score = int 3 } ∷ []))
    ≡ none
unfolding Searches.reranked Searches.reordered rankings rankings_loop ranking_of in_order is_number
    field whole is_name
repeated_test = refl
