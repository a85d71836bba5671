-- ===== src/Mcp/Tools/Replies/Spans.antt =====
-- The spans that `_spans` of mcp_server/bridge_mcp/tools.py takes, and those that `_redact` of
-- worker/ai_bridge/tasks.py sends.
use php_python_ai_bridge.Base.{
  ℕ, ◌≡◌, ◌≤◌, ◌<◌, refl, subst, max, true, List, [], ◌∷◌, ◌++◌, map, some, String, ltb, length,
  All, arith, elim_ind, Option-cases, inl, inr, length-append, ◌-◌, codes, take, drop,
}
use php_python_ai_bridge.Base.Sort.{sort, All-sort}
use php_python_ai_bridge.Json.{
  Value, null, boolean, negative_int, float, infinite, broken_str, str, int, arr, obj, items_of,
  items-items_of, members_of, field, whole, is_name, text_count,
}
use php_python_ai_bridge.Tasks.Validate.{is_between}
use php_python_ai_bridge.Tasks.Redact.{
  Candidate, Span, cand_le, span_of, extend, merge_sorted, merge, redact, replace_spans, bracket,
}
use php_python_ai_bridge.Tasks.Redact.Cover.{AreApart, Proper, merge-AreApart}
use php_python_ai_bridge.Mcp.Tools.Replies.{Place, place_of, spans_loop, spans, list_of}

-- The places are not empty, stand in order from a position on, do not overlap and lie inside the text.
abbrev ArePlaces : ℕ → ℕ → List Place → Type 0
ArePlaces size from [] = Unit
ArePlaces size from (p ∷ ps) =
    (from ≤ p.start) × (p.start < p.stop) × (p.stop ≤ size) × ArePlaces size p.stop ps

spans_loop-ArePlaces :
    (size cursor : ℕ) (vs : List Value)
    → spans_loop size cursor vs ≡ true
    → (ps : List Place) × (map place_of vs ≡ map some ps) × ArePlaces size cursor ps
unfolding spans_loop
spans_loop-ArePlaces size cursor [] h = ([], refl, tt)
spans_loop-ArePlaces size cursor (v ∷ vs) h = elim (Option-cases (place_of v)) [
  | inl bad ↦ absurd (ground (arith, h, bad))
  | inr (p, good) ↦
      let (ps, same, apart) = spans_loop-ArePlaces size p.stop vs (ground (arith, h, good)) in
      (
        p ∷ ps,
        cc (good, same),
        (ground (arith, h, good), ground (arith, h, good), ground (arith, h, good), apart),
      )
]

-- The spans that a tool takes of a result have places that are not empty, stand in order, do not
-- overlap and lie inside the text.
spans-ArePlaces :
    (result : List (String × Value)) (size : ℕ) (vs : List Value)
    → spans result size ≡ some vs
    → (ps : List Place) × (map place_of vs ≡ map some ps) × ArePlaces size 0 ps
unfolding spans
spans-ArePlaces result size vs e = elim (Option-cases (list_of (field "spans" result))) [
  | inl missing ↦ absurd (ground (arith, e, missing))
  | inr (us, listed) ↦
      let same : us ≡ vs = ground (arith, e, listed) in
      let taken : spans_loop size 0 us ≡ true = ground (arith, e, listed) in
      spans_loop-ArePlaces size 0 vs (subst (λ ws. spans_loop size 0 ws ≡ true) same taken)
]

is_name-text_count :
    (v : Value) (n : ℕ) → 0 < n → text_count (some v) ≡ some n → is_name (some v) ≡ true
unfolding is_name text_count
is_name-text_count (str s) n h e = ground (arith, e, h)
is_name-text_count (broken_str m) n h e = ground (arith, e, h)
is_name-text_count null n h e = absurd (ground (arith, e))
is_name-text_count (boolean b) n h e = absurd (ground (arith, e))
is_name-text_count (int m) n h e = absurd (ground (arith, e))
is_name-text_count (negative_int m) n h e = absurd (ground (arith, e))
is_name-text_count (float negative m k) n h e = absurd (ground (arith, e))
is_name-text_count infinite n h e = absurd (ground (arith, e))
is_name-text_count (arr vs) n h e = absurd (ground (arith, e))
is_name-text_count (obj ms) n h e = absurd (ground (arith, e))

-- A text as JSON holds it, and a score in units of 0.0001.
module _ (text_value : List ℕ → Value) (score_value : ℕ → Value) where
  abbrev pub span_value : Span → Value
  span_value s = obj (
      members_of (
        ("start", int s.start)
        ∷ ("end", int s.stop)
        ∷ ("label", text_value s.label)
        ∷ ("source", text_value s.source)
        ∷ ("score", score_value s.score)
        ∷ []))

  -- The result of a redaction, as the worker sends it.
  abbrev pub redact_reply : String → List Candidate → List ℕ → List (String × Value)
  redact_reply model cs text =
      ("model", str model)
      ∷ ("text", text_value (redact cs text))
      ∷ ("spans", arr (items_of (map span_value (merge cs))))
      ∷ []

  module _ (text_lem : (l : List ℕ) → text_count (some (text_value l)) ≡ some (length l)) where
    -- Inside the text, with a label, a source and a score from 0 to 1.
    abbrev IsSent : ℕ → Span → Type 0
    IsSent size s =
        (s.stop ≤ size)
        × (0 < length s.label)
        × (0 < length s.source)
        × (is_between 1 (score_value s.score) ≡ true)

    extend-IsSent :
        (size : ℕ) (s : Span) (cs : List Candidate)
        → IsSent size s
        → All (λ c. IsSent size (span_of c)) cs
        → All (IsSent size) (extend s cs)
    unfolding extend span_of
    extend-IsSent size s [] h k = (h, tt)
    extend-IsSent size s (c ∷ cs) h k =
        elim_ind (All (IsSent size)) (ltb c.start s.stop)
          (λ joins.
            extend-IsSent size (record s { stop = max s.stop c.stop }) cs
              (omega (arith, h.0, k.0.0), h.1, h.2, h.3) k.1)
          (λ parts. (h, extend-IsSent size (span_of c) cs k.0 k.1))

    merge_sorted-IsSent :
        (size : ℕ) (cs : List Candidate)
        → All (λ c. IsSent size (span_of c)) cs
        → All (IsSent size) (merge_sorted cs)
    unfolding merge_sorted span_of
    merge_sorted-IsSent size [] h = tt
    merge_sorted-IsSent size (c ∷ cs) h = extend-IsSent size (span_of c) cs h.0 h.1

    merge-IsSent :
        (size : ℕ) (cs : List Candidate)
        → All (λ c. IsSent size (span_of c)) cs
        → All (IsSent size) (merge cs)
    unfolding merge
    merge-IsSent size cs h =
        merge_sorted-IsSent size (sort cand_le cs)
          (All-sort (λ c. IsSent size (span_of c)) cand_le cs h)

    is_name-text : (l : List ℕ) → 0 < length l → is_name (some (text_value l)) ≡ true
    is_name-text l h = is_name-text_count (text_value l) (length l) h (text_lem l)

    spans_loop-sent :
        (size cursor : ℕ) (ss : List Span)
        → AreApart cursor ss
        → All (IsSent size) ss
        → spans_loop size cursor (map span_value ss) ≡ true
    unfolding spans_loop place_of field whole
    spans_loop-sent size cursor [] a h = refl
    spans_loop-sent size cursor (s ∷ ss) a h = ground (
      arith,
      a.0,
      a.1,
      h.0,
      is_name-text s.label h.0.1,
      is_name-text s.source h.0.2,
      spans_loop-sent size s.stop ss a.2 h.1,
    )

    length-replace_spans :
        (cursor : ℕ) (s : Span) (ss : List Span) (text : List ℕ)
        → 0 < length (replace_spans bracket cursor (s ∷ ss) text)
    unfolding replace_spans bracket
    length-replace_spans cursor s ss text = omega (
      arith,
      length-append (take (s.start - cursor) (drop cursor text))
          (bracket s ++ replace_spans bracket s.stop ss text),
    )

    redact-some :
        (cs : List Candidate) (text : List ℕ) → 0 < length text → 0 < length (redact cs text)
    unfolding redact replace_spans
    redact-some cs text h = shown (merge cs)
      where
        shown : (ss : List Span) → 0 < length (replace_spans bracket 0 ss text)
        shown [] = h
        shown (s ∷ ss) = length-replace_spans 0 s ss text

    -- For texts and scores that JSON holds as such: a tool takes the result of a redaction that the worker
    -- makes of a text that is not empty and of candidates inside it that are not empty, and have a label, a
    -- source and a score from 0 to 1; and it takes the spans as the worker made them.
    pub spans-merge :
        (model : String) (cs : List Candidate) (text : List ℕ)
        → 0 < length (codes model)
        → 0 < length text
        → All Proper cs
        → All (λ c. IsSent (length text) (span_of c)) cs
        → spans (redact_reply model cs text) (length text) ≡ some (map span_value (merge cs))
    unfolding spans field is_name
    spans-merge model cs text named some_text proper sent = ground (
      arith,
      named,
      is_name-text (redact cs text) (redact-some cs text some_text),
      items-items_of (map span_value (merge cs)),
      spans_loop-sent (length text) 0 (merge cs) (merge-AreApart cs proper)
          (merge-IsSent (length text) cs sent),
    )
