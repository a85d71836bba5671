-- ===== src/Tasks/Redact.antt =====
-- `_merge` and the text of `_redact`. A text is its list of code points,
-- and a score is in units of 0.0001, to which the models' scores are rounded. The candidates come
-- from regular expressions and models, so they are arguments here.
pub mod Cover
pub mod Text
pub mod Blind
use php_python_ai_bridge.Base.{
  ℕ, ◌+◌, ◌-◌, max, Bool, true, false, List, [], ◌∷◌, ◌++◌, ltb, leb, ◌==◌, nat_eq, if◌then◌else◌,
  take, drop,
}
use php_python_ai_bridge.Base.Sort.{sort}

pub record Candidate : Type 0 where
  pub start : ℕ
  pub stop : ℕ
  pub label : List ℕ
  pub source : List ℕ
  pub score : ℕ
  pub priority : ℕ

pub record Span : Type 0 where
  pub start : ℕ
  pub stop : ℕ
  pub label : List ℕ
  pub source : List ℕ
  pub score : ℕ

-- The order of the sort key `(start, start - end, priority, -score)`.
unfoldable pub cand_le : Candidate → Candidate → Bool
cand_le a b =
    if a.start == b.start
    then if a.stop == b.stop
      then if a.priority == b.priority then leb b.score a.score else ltb a.priority b.priority
      else ltb b.stop a.stop
    else ltb a.start b.start

unfoldable pub span_of : Candidate → Span
span_of c = record {
  start = c.start;
  stop = c.stop;
  label = c.label;
  source = c.source;
  score = c.score;
}

-- The loop of `_merge` from a last span on: a candidate that overlaps it extends it.
unfoldable pub extend : Span → List Candidate → List Span
unfolding span_of
extend s [] = s ∷ []
extend s (c ∷ cs) = elim (ltb c.start s.stop) [
  | true ↦ extend (record s { stop = max s.stop c.stop }) cs
  | false ↦ s ∷ extend (span_of c) cs
]

unfoldable pub merge_sorted : List Candidate → List Span
unfolding span_of
merge_sorted [] = []
merge_sorted (c ∷ cs) = extend (span_of c) cs

-- `_merge(candidates)`.
unfoldable pub merge : List Candidate → List Span
merge cs = merge_sorted (sort cand_le cs)

-- `text[i:j]`.
abbrev pub slice : ℕ → ℕ → List ℕ → List ℕ
slice i j text = take (j - i) (drop i text)

-- `"[" + label + "]"`.
unfoldable pub bracket : Span → List ℕ
bracket s = b'[' ∷ (s.label ++ (b']' ∷ []))

-- The loop of `_redact` over the spans, for a way to write a span.
unfoldable pub replace_spans : (Span → List ℕ) → ℕ → List Span → List ℕ → List ℕ
replace_spans mark cursor [] text = drop cursor text
replace_spans mark cursor (s ∷ ss) text =
    slice cursor s.start text ++ (mark s ++ replace_spans mark s.stop ss text)

-- The text that `_redact` returns for the candidates it has found.
unfoldable pub redact : List Candidate → List ℕ → List ℕ
redact cs text = replace_spans bracket 0 (merge cs) text
