-- ===== src/Mcp/Tools/Search.antt =====
-- The search of `index.py` and `bridge_search` of `tools.py`, both of mcp_server/bridge_mcp: from the scores
-- of an index's chunks to the chunks that are returned. The length of a text's JSON encoding, the scores
-- and the comparison of numbers are arguments.
pub mod Laws
pub mod Best
use php_python_ai_bridge.Base.{
  ℕ, zero, suc, ◌+◌, ◌-◌, ◌*◌, min, max, Bool, true, false, ◌||◌, List, [], ◌∷◌, map, take, String,
  Option, none, some, ltb, leb, ◌&&◌, length, codes, if◌then◌else◌,
}
use php_python_ai_bridge.Base.Sort.{sort}
use php_python_ai_bridge.Json.{Value}
use php_python_ai_bridge.Tasks.Rerank.{Ranking}
use php_python_ai_bridge.Mcp.Index.Format.{Chunk}
use php_python_ai_bridge.Mcp.Tools.Texts.{max_total_characters}
use php_python_ai_bridge.Mcp.Tools.Replies.{rankings}

-- A tuple `(score, -row)`.
pub record Scored {ℓ} (S : Type ℓ) : Type ℓ where
  pub score : S
  pub row : ℕ

-- `(score, -row) for row in range(loaded.count)`, from a row on.
pub scored_from {ℓ} : {S : Type ℓ} → ℕ → List S → List (Scored S)
scored_from row [] = []
scored_from row (x ∷ xs) = record { score = x; row = row } ∷ scored_from (row + 1) xs

module _ {ℓ} {S : Type ℓ} (le : S → S → Bool) where
  -- `a >= b` of two such tuples: the rows decide where the scores are equal, and `-row` is greater for
  -- the lower row.
  pub tuple_ge : Scored S → Scored S → Bool
  tuple_ge a b =
      if le a.score b.score && le b.score a.score then leb a.row b.row else le b.score a.score

  -- `heapq.nlargest(n, items)`, which is `sorted(items, reverse=True)[:n]`.
  pub nlargest : ℕ → List (Scored S) → List (Scored S)
  nlargest n items = take n (sort tuple_ge items)

  -- `index_files.search` for the scores of the chunks in order.
  unfoldable pub search : List S → ℕ → List (Ranking S)
  search scores n =
      map (λ p. record { index = p.row; score = p.score }) (nlargest n (scored_from 0 scores))

-- The candidates that are looked at, of that many chunks.
unfoldable pub wanted : ℕ → ℕ → ℕ
wanted chunks top_k = min chunks (max (4 * top_k) 20)

-- A candidate, whose source is the number of a file in the index.
pub record Candidate (S : Type 0) : Type 0 where
  pub chunk : ℕ
  pub similarity : S
  pub text : String
  pub start : ℕ
  pub stop : ℕ
  pub source : ℕ

abbrev pub candidate : {S : Type 0} → (ℕ → Chunk) → Ranking S → Candidate S
candidate chunks r =
    let c = chunks r.index in
    record {
      chunk = r.index;
      similarity = r.score;
      text = c.text;
      start = c.start;
      stop = c.stop;
      source = c.source;
    }

-- `select`, behind its checks, for the chunks of the index by their numbers.
unfoldable pub select :
    {S : Type 0} → (S → S → Bool) → (ℕ → Chunk) → List S → ℕ → List (Candidate S)
unfolding search wanted
select le chunks scores top_k =
    map (candidate chunks) (search le scores (wanted (length scores) top_k))

-- `REQUEST_BYTES`.
abbrev pub request_bytes : ℕ
request_bytes = 262144 - 4096

module _ {S : Type 0} (encoded : String → ℕ) where
  -- The loop that keeps candidates, for the characters and the bytes that are left; a budget that the
  -- source lets fall below 0 ends it.
  unfoldable pub keep : ℕ → ℕ → List (Candidate S) → List (Candidate S)
  keep characters bytes [] = []
  keep characters bytes (c ∷ cs) =
      let n = length (codes c.text) in
      let rest = keep (characters - n) (bytes - (encoded c.text + 1)) cs in
      if ltb characters n || ltb bytes (encoded c.text + 1) then [] else c ∷ rest

  unfoldable pub kept : String → List (Candidate S) → List (Candidate S)
  unfolding keep
  kept query cs =
      keep (max_total_characters - length (codes query)) (request_bytes - encoded query) cs

abbrev pub text_of_candidate : {S : Type 0} → Candidate S → String
text_of_candidate c = c.text

abbrev pub nth {ℓ} : {A : Type ℓ} → List A → ℕ → Option A
nth [] i = none
nth (x ∷ xs) zero = some x
nth (x ∷ xs) (suc i) = nth xs i

-- A hit without its snippet, with the similarity before it is rounded; it has a score if there was a rerank.
pub record Hit (S : Type 0) : Type 0 where
  pub source : ℕ
  pub chunk : ℕ
  pub start : ℕ
  pub stop : ℕ
  pub similarity : S
  pub rerank_score : Option Value

abbrev pub hit : {S : Type 0} → Option Value → Candidate S → Hit S
hit score c = record {
  source = c.source;
  chunk = c.chunk;
  start = c.start;
  stop = c.stop;
  similarity = c.similarity;
  rerank_score = score;
}

-- The candidates in the order of a ranking; `rankings` takes no index that has no candidate.
unfoldable pub reordered : {S : Type 0} → List (Candidate S) → List (Ranking Value) → List (Hit S)
reordered cs [] = []
reordered cs (r ∷ rs) =
    let rest = reordered cs rs in
    elim (nth cs r.index) [ none ↦ rest | some c ↦ hit (some r.score) c ∷ rest ]

-- The hits with a rerank, for the worker's result, or `none` where the result is refused.
unfoldable pub reranked :
    {S : Type 0}
    → (Value → Value → Bool)
    → List (Candidate S)
    → ℕ
    → List (String × Value)
    → Option (List (Hit S))
unfolding reordered rankings
reranked le cs top_k result = elim (rankings le result (length cs) (min top_k (length cs))) [
  | none ↦ none
  | some rs ↦ some (take top_k (reordered cs rs))
]

pub unranked : {S : Type 0} → List (Candidate S) → ℕ → List (Hit S)
unranked cs top_k = take top_k (map (hit none) cs)
