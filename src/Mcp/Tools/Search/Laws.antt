-- ===== src/Mcp/Tools/Search/Laws.antt =====
-- What `bridge_search` of mcp_server/bridge_mcp/tools.py sends and returns.
use php_python_ai_bridge.Base.{
  ℕ, ◌+◌, ◌-◌, min, ◌≡◌, ◌≤◌, ◌<◌, refl, ap, subst, Bool, true, false, ◌||◌, List, [], ◌∷◌, ◌++◌,
  map, String, some, ltb, length, codes, All, is_blank, arith, if_ind, length-map, length-append,
  ◌⊎◌,
}
use php_python_ai_bridge.Tasks.Validate.{validate}
use php_python_ai_bridge.Mcp.Tools.Texts.{
  check_loop, passed_text, check_texts, rerank_input, max_total_characters,
}
use php_python_ai_bridge.Mcp.Tools.Texts.Laws.{rerank_input-valid}
use php_python_ai_bridge.Mcp.Tools.Search.{Candidate, keep, kept, request_bytes, text_of_candidate}
use php_python_ai_bridge.Json.{str}

module _ {S : Type 0} (encoded : String → ℕ) where
  abbrev pub characters : List (Candidate S) → ℕ
  characters [] = 0
  characters (c ∷ cs) = length (codes c.text) + characters cs

  abbrev pub bytes : List (Candidate S) → ℕ
  bytes [] = 0
  bytes (c ∷ cs) = encoded c.text + 1 + bytes cs

  -- No candidate is left out, or the first that is does not fit.
  abbrev IsFull : ℕ → ℕ → List (Candidate S) → Type 0
  IsFull left room [] = Unit
  IsFull left room (c ∷ cs) = (left < length (codes c.text)) ⊎ (room < encoded c.text + 1)

  -- The candidates kept are the first, and fit.
  pub record Keeps (left room : ℕ) (cs out : List (Candidate S)) : Type 0 where
    pub rest : List (Candidate S)
    pub first : cs ≡ out ++ rest
    pub few : characters out ≤ left
    pub small : bytes out ≤ room
    pub full : IsFull (left - characters out) (room - bytes out) rest

  keep-Keeps :
      (left room : ℕ) (cs : List (Candidate S)) → Keeps left room cs (keep encoded left room cs)
  unfolding keep
  keep-Keeps left room [] = record {
    rest = [];
    first = refl;
    few = omega arith;
    small = omega arith;
    full = tt;
  }
  keep-Keeps left room (c ∷ cs) =
      if_ind (Keeps left room (c ∷ cs))
        (ltb left (length (codes c.text)) || ltb room (encoded c.text + 1))
        (λ over. record {
          rest = c ∷ cs;
          first = refl;
          few = omega arith;
          small = omega arith;
          full = ground (arith, over);
        })
        (λ fits.
          also fits (keep-Keeps (left - length (codes c.text)) (room - (encoded c.text + 1)) cs))
    where
      also :
          {out : List (Candidate S)}
          → (ltb left (length (codes c.text)) || ltb room (encoded c.text + 1)) ≡ false
          → Keeps (left - length (codes c.text)) (room - (encoded c.text + 1)) cs out
          → Keeps left room (c ∷ cs) (c ∷ out)
      also {out} fits k =
          let left_after : left - length (codes c.text) - characters out
              ≡ left - characters (c ∷ out) =
            omega arith in
          let room_after : room - (encoded c.text + 1) - bytes out ≡ room - bytes (c ∷ out) =
            omega arith in
          record {
            rest = k.rest;
            first = ap (λ l. c ∷ l) k.first;
            few = ground (arith, fits, k.few);
            small = ground (arith, fits, k.small);
            full =
                subst (λ n. IsFull n (room - bytes (c ∷ out)) k.rest) left_after
                  (subst (λ n. IsFull (left - length (codes c.text) - characters out) n k.rest)
                    room_after k.full);
          }

  -- A text that a chunk may have for the worker to take it.
  abbrev IsSendable : Candidate S → Type 0
  IsSendable c = (is_blank c.text ≡ false) × (length (codes c.text) ≤ 8192)

  check_loop-sendable :
      (total : ℕ) (cs : List (Candidate S))
      → All IsSendable cs
      → total + characters cs ≤ max_total_characters
      → check_loop total (map str (map text_of_candidate cs)) ≡ true
  unfolding check_loop passed_text
  check_loop-sendable total [] h le = ground (arith, le)
  check_loop-sendable total (c ∷ cs) h le =
      ground
        (arith, h.0, check_loop-sendable (total + length (codes c.text)) cs h.1 (omega (arith, le)))

  All-first : (xs ys : List (Candidate S)) → All IsSendable (xs ++ ys) → All IsSendable xs
  All-first [] ys h = tt
  All-first (x ∷ xs) ys h = (h.0, All-first xs ys h.1)

  -- The candidates that a search keeps for its rerank are the best of them; they fit, with the query,
  -- into the characters and the bytes of a request; and no candidate is left out, or the first that is
  -- left out would not have fitted.
  kept-Keeps :
      (query : String) (cs : List (Candidate S))
      → Keeps
          (max_total_characters - length (codes query))
          (request_bytes - encoded query)
          cs
          (kept encoded query cs)
  unfolding kept
  kept-Keeps query cs = keep-Keeps _ _ cs

  -- For a query and candidates whose texts are not blank and not too long, and at most 512 candidates: if a
  -- candidate is kept, the rerank that a search asks for is one that the worker takes.
  pub kept-valid :
      (query : String) (cs : List (Candidate S)) (top_k : ℕ) (test_tasks : Bool)
      → is_blank query ≡ false
      → length (codes query) ≤ 8192
      → All IsSendable cs
      → length cs ≤ 512
      → 1 ≤ length (kept encoded query cs)
      → 1 ≤ top_k
      → validate "rerank"
          (rerank_input query
            (map text_of_candidate (kept encoded query cs))
            (min top_k (length (kept encoded query cs))))
          test_tasks
        ≡ some (
            rerank_input query
              (map text_of_candidate (kept encoded query cs))
              (min top_k (length (kept encoded query cs))))
  unfolding check_texts
  kept-valid query cs top_k test_tasks solid short sendable few some_kept some_k =
      let k = kept-Keeps query cs in
      let out = kept encoded query cs in
      let texts = length-map text_of_candidate out in
      let fits : length (codes query) + characters out ≤ max_total_characters =
        omega (arith, k.few, short) in
      let count : length out ≤ 512 =
        omega (arith, few, ap length k.first, length-append out k.rest) in
      rerank_input-valid query (map text_of_candidate out) 512 (min top_k (length out)) test_tasks
        solid short (omega arith) (omega (arith, some_k, some_kept)) (omega (arith, texts))
        (ground (
          arith,
          texts,
          length-map str (map text_of_candidate out),
          count,
          some_kept,
          check_loop-sendable (length (codes query)) out
              (All-first out k.rest (subst (All IsSendable) k.first sendable)) fits,
        ))
