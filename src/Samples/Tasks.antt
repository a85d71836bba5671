-- ===== src/Samples/Tasks.antt =====
-- Tests of the tasks: a text with an address in it, a ranking, a card number.
use php_python_ai_bridge.Base.{
  ℕ, ◌+◌, ◌≡◌, ◌≢◌, refl, Bool, true, false, List, [], ◌∷◌, leb, arith, All, count, drop,
}
use php_python_ai_bridge.Base.Sort.{sort, IsSorted, place}
use php_python_ai_bridge.Tasks.Redact.{
  Candidate, merge, redact, replace_spans, cand_le, merge_sorted, extend, span_of, bracket,
}
use php_python_ai_bridge.Tasks.Redact.Cover.{IsHidden, Proper}
use php_python_ai_bridge.Tasks.Redact.Text.{nothing, show_outside, redact_safe}
use php_python_ai_bridge.Tasks.Redact.Blind.{blank, is_candidate, redact-blank}
use php_python_ai_bridge.Tasks.Rerank.{Ranking, ranks_before, rank, rankings_from}
use php_python_ai_bridge.Tasks.Rerank.Laws.{rank_best}

-- Two readings that overlap, the later one first.
abbrev found : List Candidate
found =
    record { start = 4; stop = 7; label = b'P' ∷ []; source = []; score = 9000; priority = 7 }
    ∷ record { start = 2; stop = 5; label = b'E' ∷ []; source = []; score = 10000; priority = 0 }
    ∷ []

abbrev text : List ℕ
text = b'H' ∷ b'i' ∷ b' ' ∷ b'a' ∷ b'@' ∷ b'b' ∷ b'c' ∷ b'!' ∷ []

found-Proper : All Proper found
found-Proper = (omega arith, (omega arith, tt))

redact_test : redact found text ≡ b'H' ∷ b'i' ∷ b'[' ∷ b'E' ∷ b']' ∷ b'!' ∷ []
unfolding redact merge merge_sorted extend span_of sort place cand_le replace_spans bracket
redact_test = refl

redact_safe_example :
    (replace_spans nothing 0 (merge found) text ≡ show_outside (merge found) 0 text)
    × All (λ c. IsHidden c (merge found)) found
redact_safe_example = redact_safe found text found-Proper

redact-blank_example : redact found (blank (is_candidate found) 0 text) ≡ redact found text
redact-blank_example = redact-blank found text found-Proper

leb_trans : (a b c : ℕ) → leb a b ≡ true → leb b c ≡ true → leb a c ≡ true
leb_trans a b c h k = ground arith

leb_total : (a b : ℕ) → leb a b ≡ false → leb b a ≡ true
leb_total a b h = ground arith

abbrev scores : List ℕ
scores = 2 ∷ 7 ∷ 2 ∷ 9 ∷ []

abbrev is_second : Ranking ℕ → Bool
is_second r = leb 1 r.index

rank_best_example :
    IsSorted (ranks_before leb) (rank leb scores 2)
    × All
        (λ r.
          All
            (λ d. ranks_before leb r d ≡ true)
            (drop 2 (sort (ranks_before leb) (rankings_from 0 scores))))
        (rank leb scores 2)
    × (count is_second (rank leb scores 2)
          + count is_second (drop 2 (sort (ranks_before leb) (rankings_from 0 scores)))
        ≡ count is_second (rankings_from 0 scores))
rank_best_example = rank_best leb leb_trans leb_total scores 2 is_second

differ : ◌≢◌ {A = ℕ} 8 9
differ h = omega (arith, h)
