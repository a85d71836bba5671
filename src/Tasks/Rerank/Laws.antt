-- ===== src/Tasks/Rerank/Laws.antt =====
-- The ranking and the reports of the rerank task in `execute`.
use php_python_ai_bridge.Base.{
  ℕ, zero, suc, ◌+◌, ◌*◌, ◌/◌, ◌≡◌, ◌≤◌, ◌<◌, ◌∙◌, ap, Bool, true, false, List, [], ◌∷◌, nat_eq,
  take, length, count, All, arith, drop,
}
use php_python_ai_bridge.Base.Sort.{sort, IsSorted, sort-IsSorted, count-sort}
use native.Mathlib.Nat.{add-div_right, le-div_iff_mul-le, div-mul-le_self, div-lt_iff_lt-mul}
use php_python_ai_bridge.Tasks.Rerank.{
  Ranking, rankings_from, ranks_before, rank, report_step, reports, counts_from, rerank_reports,
}

module _ {ℓ} {A : Type ℓ} (P : A → Type 0) where
  All-take : (n : ℕ) (xs : List A) → All P xs → All P (take n xs)
  All-take zero xs h = tt
  All-take (suc n) [] h = tt
  All-take (suc n) (x ∷ xs) h = (h.0, All-take n xs h.1)

  All-drop : (n : ℕ) (xs : List A) → All P xs → All P (drop n xs)
  All-drop zero xs h = h
  All-drop (suc n) [] h = tt
  All-drop (suc n) (x ∷ xs) h = All-drop n xs h.1

module _ {ℓ} {A : Type ℓ} (le : A → A → Bool) where
  take-IsSorted : (n : ℕ) (xs : List A) → IsSorted le xs → IsSorted le (take n xs)
  take-IsSorted zero xs h = tt
  take-IsSorted (suc n) [] h = tt
  take-IsSorted (suc n) (x ∷ xs) h =
      (All-take (λ y. le x y ≡ true) n xs h.0, take-IsSorted n xs h.1)

  -- What is taken from a sorted list stands before what is left.
  take-before-drop :
      (n : ℕ) (xs : List A)
      → IsSorted le xs
      → All (λ x. All (λ y. le x y ≡ true) (drop n xs)) (take n xs)
  take-before-drop zero xs h = tt
  take-before-drop (suc n) [] h = tt
  take-before-drop (suc n) (x ∷ xs) h =
      (All-drop (λ y. le x y ≡ true) n xs h.0, take-before-drop n xs h.1)

count-take-drop {ℓ} :
    {A : Type ℓ} (p : A → Bool) (n : ℕ) (xs : List A)
    → count p (take n xs) + count p (drop n xs) ≡ count p xs
count-take-drop p zero xs = omega arith
count-take-drop p (suc n) [] = omega arith
count-take-drop p (suc n) (x ∷ xs) = omega (arith, count-take-drop p n xs)

-- The scores' order is total and transitive, as that of finite floats is.
module _ {ℓ} {S : Type ℓ} (le : S → S → Bool)
    (le_trans : (a b c : S) → le a b ≡ true → le b c ≡ true → le a c ≡ true)
    (le_total : (a b : S) → le a b ≡ false → le b a ≡ true) where
  pub ranks_before_trans :
      (a b c : Ranking S)
      → ranks_before le a b ≡ true
      → ranks_before le b c ≡ true
      → ranks_before le a c ≡ true
  unfolding ranks_before
  ranks_before_trans a b c h k = ground (
    arith,
    le_trans a.score b.score c.score,
    le_trans b.score c.score a.score,
    le_trans c.score a.score b.score,
    le_trans c.score b.score a.score,
    le_trans b.score a.score c.score,
    le_trans a.score c.score b.score,
    le_total a.score b.score,
    le_total b.score c.score,
    le_total a.score c.score,
  )

  ranks_before_total : (a b : Ranking S) → ranks_before le a b ≡ false → ranks_before le b a ≡ true
  unfolding ranks_before
  ranks_before_total a b h = ground (arith, le_total a.score b.score)

  -- For a total and transitive order of scores: the ranking of some scores, cut to `top_k`, is in
  -- order, best score first and the earlier document first where scores are equal; it stands before
  -- all that was cut off; and the two parts together hold each document of the input, by any test,
  -- as often as the input does.
  pub rank_best :
      (scores : List S) (top_k : ℕ) (p : Ranking S → Bool)
      → IsSorted (ranks_before le) (rank le scores top_k)
        × All
            (λ r.
              All
                (λ d. ranks_before le r d ≡ true)
                (drop top_k (sort (ranks_before le) (rankings_from 0 scores))))
            (rank le scores top_k)
        × (count p (rank le scores top_k)
              + count p (drop top_k (sort (ranks_before le) (rankings_from 0 scores)))
            ≡ count p (rankings_from 0 scores))
  unfolding rank
  rank_best scores top_k p =
      let sorted =
        sort-IsSorted (ranks_before le) ranks_before_trans ranks_before_total
          (rankings_from 0 scores) in
      (
        take-IsSorted (ranks_before le) top_k _ sorted,
        take-before-drop (ranks_before le) top_k _ sorted,
        count-take-drop p top_k (sort (ranks_before le) (rankings_from 0 scores))
            ∙ count-sort (ranks_before le) p (rankings_from 0 scores),
      )

below : (c step : ℕ) → (c / step) * step ≤ c + 1
below c step = omega (arith, div-mul-le_self c step)

few_steps : (total : ℕ) → 1 ≤ total → total / ((total + 63) / 64) < 65
few_steps total h = (div-lt_iff_lt-mul (omega (arith, h))).1 (omega (arith, h))

-- Each report but the last moves on to a later stretch of `step` counts.
reports-length :
    (step total last : ℕ) (n c : ℕ)
    → 0 < step
    → c + n ≡ total
    → last / step ≤ c / step + 1
    → length (reports step total last (counts_from n c)) + last / step ≤ total / step + 2
unfolding reports counts_from
reports-length step total last zero c pos e h =
    let same : c ≡ total = omega (arith, e) in
    let q : c / step ≡ total / step = ap (λ k. k / step) same in ground (arith, q, h)
reports-length step total last (suc n) c pos e h =
    let next_step : (c + step) / step ≡ c / step + 1 = add-div_right c pos in
    let grows : c / step ≤ (c + 1) / step = (le-div_iff_mul-le pos).1 (below c step) in
    ground (
      arith,
      next_step,
      grows,
      h,
      reports-length step total (c + step) n (c + 1) pos (omega (arith, e)),
      reports-length step total last n (c + 1) pos (omega (arith, e)),
    )

-- A rerank of at least one document by the lexical backend sends at most 66 progress reports.
rerank_reports-le : (total : ℕ) → 1 ≤ total → length (rerank_reports total) ≤ 66
unfolding rerank_reports report_step
rerank_reports-le total h =
    let step = report_step total in
    ground (
      arith,
      few_steps total h,
      reports-length ((total + 63) / 64) total 0 total 0 (omega (arith, h)) (omega arith)
          (omega arith),
    )
