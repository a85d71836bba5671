-- ===== src/Samples/Cards.antt =====
-- Runs of digits, and the ranges that `_cards` yields for them.
use php_python_ai_bridge.Base.{ℕ, ◌≡◌, refl, false, arith, ◌++◌, List, [], ◌∷◌, some, All}
use php_python_ai_bridge.Tasks.Luhn.{luhn-one_digit, luhn, luhn_total, luhn_digit}
use php_python_ai_bridge.Tasks.Cards.{
  Group, Range, cards, cards_loop, card_ranges, ranges_from, ranges_of, skip, pick, pick_from,
}
use php_python_ai_bridge.Tasks.Cards.Laws.{IsCard, AreApart, cards-IsCard}

-- A card of 16 digits, and a space and one of 19 digits after it.
abbrev card_16 : Group
card_16 = record {
  start = 0;
  stop = 16;
  digits = 4 ∷ 1 ∷ 1 ∷ 1 ∷ 1 ∷ 1 ∷ 1 ∷ 1 ∷ 1 ∷ 1 ∷ 1 ∷ 1 ∷ 1 ∷ 1 ∷ 1 ∷ 1 ∷ [];
}

abbrev card_19 : Group
card_19 = record {
  start = 17;
  stop = 36;
  digits = 6 ∷ 3 ∷ 0 ∷ 4 ∷ 0 ∷ 0 ∷ 0 ∷ 0 ∷ 0 ∷ 0 ∷ 0 ∷ 0 ∷ 0 ∷ 0 ∷ 0 ∷ 0 ∷ 0 ∷ 0 ∷ 0 ∷ [];
}

abbrev range_of : ℕ → ℕ → Range
range_of i n = record { first = i; last = i; count = n }

lone_test : cards (card_16 ∷ []) ≡ some (range_of 0 16 ∷ [])
unfolding cards cards_loop card_ranges ranges_from ranges_of skip pick pick_from luhn luhn_total
    luhn_digit
lone_test = refl

-- In the other order both are yielded.
behind_test : cards (card_19 ∷ card_16 ∷ []) ≡ some (range_of 0 19 ∷ range_of 1 16 ∷ [])
unfolding cards cards_loop card_ranges ranges_from ranges_of skip pick pick_from luhn luhn_total
    luhn_digit
behind_test = refl

-- Before the longer card, the shorter one is not.
before_test : cards (card_16 ∷ card_19 ∷ []) ≡ some (range_of 1 19 ∷ [])
unfolding cards cards_loop card_ranges ranges_from ranges_of skip pick pick_from luhn luhn_total
    luhn_digit
before_test = refl

cards-IsCard_example :
    (rs : List Range) × (cards (card_16 ∷ card_19 ∷ []) ≡ some rs)
    × All (IsCard (card_16 ∷ card_19 ∷ [])) rs
    × AreApart (card_16 ∷ card_19 ∷ []) 0 rs
cards-IsCard_example = cards-IsCard (card_16 ∷ card_19 ∷ [])

luhn-one_digit_example : luhn ((7 ∷ 9 ∷ 9 ∷ 2 ∷ 7 ∷ 3 ∷ 9 ∷ 8 ∷ 7 ∷ 1 ∷ []) ++ (4 ∷ [])) ≡ false
unfolding luhn luhn_total luhn_digit
luhn-one_digit_example =
    luhn-one_digit (7 ∷ 9 ∷ 9 ∷ 2 ∷ 7 ∷ 3 ∷ 9 ∷ 8 ∷ 7 ∷ 1 ∷ []) [] 3 4 (omega arith) (omega arith)
      (λ h. absurd (omega (arith, h))) refl
