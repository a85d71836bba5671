-- ===== src/Tasks/Cards.antt =====
-- `_card_ranges` and `_cards`, over the groups of digits of one run: the regular expressions that find a run and
-- its groups are the standard library's.
pub mod Laws
use php_python_ai_bridge.Base.{
  ℕ, zero, suc, ◌+◌, Bool, true, false, ◌&&◌, List, [], ◌∷◌, ◌++◌, Option, none, some, map, ltb,
  leb, ◌==◌, nat_eq, if◌then◌else◌, length, filter,
}
use php_python_ai_bridge.Tasks.Luhn.{luhn}

pub record Group : Type 0 where
  pub start : ℕ
  pub stop : ℕ
  pub digits : List ℕ

-- The first and the last group of a range, and how many digits it has.
pub record Range : Type 0 where
  pub first : ℕ
  pub last : ℕ
  pub count : ℕ

unfoldable pub ranges_from : ℕ → ℕ → List ℕ → List Group → List Range
ranges_from first last digits [] = []
ranges_from first last digits (g ∷ gs) =
    let longer = digits ++ g.digits in
    let rest = ranges_from first (last + 1) longer gs in
    if ltb 19 (length longer)
    then []
    else if leb 13 (length longer) && luhn longer
    then record { first = first; last = last; count = length longer } ∷ rest
    else rest

-- `_card_ranges`, before the ranges are put apart by their count of digits.
unfoldable pub card_ranges : ℕ → List Group → List Range
card_ranges first [] = []
card_ranges first (g ∷ gs) = ranges_from first first [] (g ∷ gs) ++ card_ranges (first + 1) gs

-- The lists of ranges, the longest first; a count that no range has is an empty list.
unfoldable pub ranges_of : List Range → List ℕ → List (List Range)
ranges_of ranges [] = []
ranges_of ranges (n ∷ ns) = filter (λ r. r.count == n) ranges ∷ ranges_of ranges ns

abbrev pub counts : List ℕ
counts = 19 ∷ 18 ∷ 17 ∷ 16 ∷ 15 ∷ 14 ∷ 13 ∷ []

-- What is left of a list whose position has moved past the ranges that begin before the cursor.
unfoldable pub skip : ℕ → List Range → List Range
skip cursor [] = []
skip cursor (r ∷ rs) = let rest = skip cursor rs in if ltb r.first cursor then rest else r ∷ rs

unfoldable pub pick_from :
    List Range
    → Option Range × List (List Range)
    → List (List Range)
    → Option Range × List (List Range)
pick_from [] (found, lists) behind = (found, [] ∷ lists)
pick_from (r ∷ rs) (found, lists) behind = (some r, (r ∷ rs) ∷ behind)

-- The first range at the cursor or after it of the first list that has one, and the lists as they then are.
unfoldable pub pick : ℕ → List (List Range) → Option Range × List (List Range)
pick cursor [] = (none, [])
pick cursor (l ∷ ls) = pick_from (skip cursor l) (pick cursor ls) ls

-- The loop of `_cards` over the cursor, on fuel.
unfoldable pub cards_loop : ℕ → ℕ → ℕ → List (List Range) → Option (List Range)
cards_loop zero cursor total lists = none
cards_loop (suc fuel) cursor total lists =
    if ltb cursor total
    then (let (found, lists') = pick cursor lists in
        elim found [
          | none ↦ some []
          | some r ↦ elim (cards_loop fuel (r.last + 1) total lists') [
            | none ↦ none
            | some rs ↦ some (r ∷ rs)
          ]
        ])
    else some []

-- The ranges that `_cards` yields for a run; each turn of the loop but the last moves the cursor on.
unfoldable pub cards : List Group → Option (List Range)
cards groups =
    cards_loop (suc (length groups)) 0 (length groups) (ranges_of (card_ranges 0 groups) counts)
