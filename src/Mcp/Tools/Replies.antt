-- ===== src/Mcp/Tools/Replies.antt =====
-- `_rankings`, `_vectors` and `_spans` of mcp_server/bridge_mcp/tools.py: which results of the worker a
-- tool takes. Python's comparison of numbers and the test of a vector's length are arguments.
pub mod Rankings
pub mod Ranked
pub mod Spans
use php_python_ai_bridge.Base.{
  ℕ, ◌+◌, ◌^◌, min, Bool, true, false, not, ◌&&◌, ◌||◌, List, [], ◌∷◌, any, all, Option, none, some,
  String, ltb, leb, ◌==◌, nat_eq, if◌then◌else◌, length, is_some,
}
use php_python_ai_bridge.Json.{
  Value, int, negative_int, float, arr, obj, Items, Members, members, items, field, is_name, whole,
}
use php_python_ai_bridge.Tasks.Rerank.{Ranking}
use php_python_ai_bridge.Tasks.Validate.{is_between, float_limit}

-- Whether `_number(value)` returns true; for an int that rounds to no float it raises `OverflowError`.
unfoldable pub is_number : Value → Bool
is_number (int n) = ltb n float_limit
is_number (negative_int n) = ltb n float_limit
is_number (float negative n k) = true
is_number _ = false

abbrev pub list_of : Option Value → Option (List Value)
list_of (some (arr vs)) = some (items vs)
list_of _ = none

-- An item with an index and a score.
unfoldable pub ranking_of : Value → Option (Ranking Value)
unfolding is_number
ranking_of (obj ms) = elim (whole (field "index" (members ms))) [
  | none ↦ none
  | some i ↦ elim (field "score" (members ms)) [
    | none ↦ none
    | some score ↦ if is_number score then some (record { index = i; score = score }) else none
  ]
]
ranking_of _ = none

module _ (le : Value → Value → Bool) where
  -- Not behind the item before it: no better score, and no smaller index for the same score.
  unfoldable pub in_order : Option (Ranking Value) → Ranking Value → Bool
  in_order none r = true
  in_order (some p) r = le r.score p.score && not (le p.score r.score && ltb r.index p.index)

  abbrev pub also_ranked :
      Ranking Value → Option (List (Ranking Value)) → Option (List (Ranking Value))
  also_ranked r none = none
  also_ranked r (some rs) = some (r ∷ rs)

  -- The loop of `_rankings`.
  unfoldable pub rankings_loop :
      ℕ → List ℕ → Option (Ranking Value) → List Value → Option (List (Ranking Value))
  unfolding ranking_of in_order
  rankings_loop count seen previous [] = some []
  rankings_loop count seen previous (v ∷ vs) = elim (ranking_of v) [
    | none ↦ none
    | some r ↦
        elim (ltb r.index count && not (any (λ i. i == r.index) seen) && in_order previous r) [
          | true ↦ also_ranked r (rankings_loop count (r.index ∷ seen) (some r) vs)
          | false ↦ none
        ]
  ]

  -- `_rankings(result, count, top_k)`, or `none` where it raises.
  unfoldable pub rankings : List (String × Value) → ℕ → ℕ → Option (List (Ranking Value))
  unfolding rankings_loop
  rankings result count top_k = elim (list_of (field "rankings" result)) [
    | none ↦ none
    | some vs ↦
        let ranked = rankings_loop count [] none vs in
        if is_name (field "model" result) && length vs == min top_k count then ranked else none
  ]

-- A vector of that many finite numbers, of unit length.
vector_ok : (List Value → Bool) → ℕ → Value → Bool
unfolding is_number
vector_ok is_unit dimensions (arr vs) =
    length (items vs) == dimensions && all is_number (items vs) && is_unit (items vs)
vector_ok is_unit dimensions _ = false

-- `_vectors(result, count)`, or `none` where it raises.
unfoldable pub vectors : (List Value → Bool) → List (String × Value) → ℕ → Option (List Value)
unfolding vector_ok
vectors is_unit result count = elim (list_of (field "vectors" result)) [
  | none ↦ none
  | some vs ↦ elim (whole (field "dimensions" result)) [
    | none ↦ none
    | some dimensions ↦
        if is_name (field "model" result)
          && leb 1 dimensions
          && length vs == count
          && all (vector_ok is_unit dimensions) vs
        then some vs
        else none
  ]
]

pub record Place : Type 0 where
  pub start : ℕ
  pub stop : ℕ

-- The place of a span, if its fields are in order beside it.
pub place_of : Value → Option Place
place_of (obj ms) = elim (whole (field "start" (members ms))) [
  | none ↦ none
  | some start ↦ elim (whole (field "end" (members ms))) [
    | none ↦ none
    | some stop ↦ elim (field "score" (members ms)) [
      | none ↦ none
      | some score ↦
          if is_name (field "label" (members ms))
            && is_name (field "source" (members ms))
            && is_between 1 score
          then some (record { start = start; stop = stop })
          else none
    ]
  ]
]
place_of _ = none

-- The loop of `_spans`, for the length of the text.
pub spans_loop : ℕ → ℕ → List Value → Bool
unfolding place_of
spans_loop size cursor [] = true
spans_loop size cursor (v ∷ vs) = elim (place_of v) [
  | none ↦ false
  | some p ↦
      leb cursor p.start && ltb p.start p.stop && leb p.stop size && spans_loop size p.stop vs
]

-- `_spans(result, text)` for the length of the text, or `none` where it raises.
pub spans : List (String × Value) → ℕ → Option (List Value)
unfolding spans_loop
spans result size = elim (list_of (field "spans" result)) [
  | none ↦ none
  | some vs ↦
      if is_name (field "model" result) && is_name (field "text" result) && spans_loop size 0 vs
      then some vs
      else none
]
