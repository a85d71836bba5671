-- ===== src/Metrics/Cumulative.antt =====
-- The histogram that a scrape reads: the lines of `histogram` after `observe`.
use php_python_ai_bridge.Base.{
  ℕ, ◌+◌, ◌≡◌, ◌≤◌, refl, ◌∙◌, ap, sym, inl, inr, List, [], ◌∷◌, leb, arith, length, All,
  if◌then◌else◌, if_true, if_false, Bool-cases,
}
use php_python_ai_bridge.Metrics.{buckets, Histogram, bump_bucket, observe, cumulative}

-- One more in each line whose bound a time does not exceed, and in the line for +Inf.
raise_from : List ℕ → ℕ → List ℕ → List ℕ
raise_from bounds ms [] = []
raise_from [] ms (c ∷ cs) = (c + 1) ∷ cs
raise_from (b ∷ bs) ms (c ∷ cs) = (if leb ms b then c + 1 else c) ∷ raise_from bs ms cs

-- Each bound is at least the one before.
abbrev Rising : List ℕ → Type 0
Rising [] = Unit
Rising (b ∷ bs) = All (λ d. b ≤ d) bs × Rising bs

cumulative-raise_from :
    (bounds : List ℕ) (ms total : ℕ) (cs : List ℕ)
    → All (λ d. ms ≤ d) bounds
    → length cs ≡ length bounds + 1
    → cumulative (total + 1) cs ≡ raise_from bounds ms (cumulative total cs)
unfolding cumulative raise_from
cumulative-raise_from [] ms total [] h n = absurd (omega (arith, n))
cumulative-raise_from [] ms total (c ∷ []) h n = ap (λ k. k ∷ []) (omega arith)
cumulative-raise_from [] ms total (c ∷ (d ∷ cs)) h n = absurd (omega (arith, n))
cumulative-raise_from (b ∷ bs) ms total [] h n = absurd (omega (arith, n))
cumulative-raise_from (b ∷ bs) ms total (c ∷ cs) h n =
    let shifted : total + 1 + c ≡ total + c + 1 = omega arith in
    ap (λ k. k ∷ cumulative k cs) shifted
    ∙ ap (λ l. (total + c + 1) ∷ l)
        (cumulative-raise_from bs ms (total + c) cs h.1 (omega (arith, n)))
    ∙ ap (λ k. k ∷ raise_from bs ms (cumulative (total + c) cs))
        (sym (if_true (leb ms b) _ _ (ground (arith, h.0))))

All-le : (ms b : ℕ) (bs : List ℕ) → ms ≤ b → All (λ d. b ≤ d) bs → All (λ d. ms ≤ d) bs
All-le ms b [] h k = tt
All-le ms b (d ∷ bs) h k = (omega (arith, h, k.0), All-le ms b bs h k.1)

bump-raise :
    (bounds : List ℕ) (ms total : ℕ) (cs : List ℕ)
    → Rising bounds
    → length cs ≡ length bounds + 1
    → cumulative total (bump_bucket bounds ms cs) ≡ raise_from bounds ms (cumulative total cs)
unfolding cumulative raise_from bump_bucket
bump-raise [] ms total [] r n = absurd (omega (arith, n))
bump-raise [] ms total (c ∷ []) r n = ap (λ k. k ∷ []) (omega arith)
bump-raise [] ms total (c ∷ (d ∷ cs)) r n = absurd (omega (arith, n))
bump-raise (b ∷ bs) ms total [] r n = absurd (omega (arith, n))
bump-raise (b ∷ bs) ms total (c ∷ cs) r n = elim (Bool-cases (leb ms b)) [
  | inl fits ↦
      let below : ms ≤ b = ground (arith, fits) in
      ap (cumulative total) (if_true (leb ms b) ((c + 1) ∷ cs) (c ∷ bump_bucket bs ms cs) fits)
      ∙ ap (λ k. k ∷ cumulative k cs) (omega arith)
      ∙ cumulative-raise_from (b ∷ bs) ms total (c ∷ cs) (below, All-le ms b bs below r.0) n
  | inr above ↦
      ap (cumulative total) (if_false (leb ms b) ((c + 1) ∷ cs) (c ∷ bump_bucket bs ms cs) above)
      ∙ ap (λ l. (total + c) ∷ l) (bump-raise bs ms (total + c) cs r.1 (omega (arith, n)))
      ∙ ap (λ k. k ∷ raise_from bs ms (cumulative (total + c) cs))
          (sym (if_false (leb ms b) _ _ above))
]

buckets-Rising : Rising buckets
buckets-Rising = ground arith

-- With a count for each bound and one for +Inf, observing a time adds one to each line of the
-- histogram whose bound the time does not exceed, and to the line for +Inf, and to no other line;
-- it adds the time to the sum and one to the count.
observe-cumulative :
    (h : Histogram) (ms : ℕ)
    → length h.counts ≡ length buckets + 1
    → (cumulative 0 (observe h ms).counts ≡ raise_from buckets ms (cumulative 0 h.counts))
      × ((observe h ms).total ≡ h.total + ms)
      × ((observe h ms).count ≡ h.count + 1)
unfolding observe
observe-cumulative h ms n = (bump-raise buckets ms 0 h.counts buckets-Rising n, refl, refl)
