-- ===== src/Mcp/Tools/Replies/Ranked.antt =====
-- The worker's rankings, `execute` of worker/ai_bridge/tasks.py, as `_rankings` of
-- mcp_server/bridge_mcp/tools.py takes them.
use php_python_ai_bridge.Base.{
  ℕ, zero, suc, ◌+◌, min, ◌≡◌, ◌≤◌, ◌<◌, refl, ap, ◌∙◌, Bool, true, false, not, List, [], ◌∷◌, map,
  some, none, any, String, ltb, ◌==◌, nat_eq, length, codes, take, count, All, arith, length-map,
}
use php_python_ai_bridge.Base.Sort.{sort, length-sort}
use php_python_ai_bridge.Json.{Value, str, arr, items_of, items-items_of, field, is_name}
use php_python_ai_bridge.Tasks.Rerank.{Ranking, ranks_before, rank, rankings_from}
use php_python_ai_bridge.Tasks.Rerank.Laws.{rank_best}
use php_python_ai_bridge.Mcp.Tools.Replies.{is_number, rankings}
use php_python_ai_bridge.Mcp.Tools.Replies.Rankings.{
  Distinct, IsRanking, ranking_value, rankings_loop-values, IsNumber,
}

-- What holds of each item that a test does not count.
All-uncounted {ℓ κ} :
    {A : Type ℓ} (P : A → Type κ) (p : A → Bool) (xs : List A)
    → ((x : A) → p x ≡ false → P x)
    → count p xs ≡ 0
    → All P xs
All-uncounted P p [] h k = tt
All-uncounted P p (x ∷ xs) h k =
    (h x (ground (arith, k)), All-uncounted P p xs h (ground (arith, k)))

Distinct-of_count :
    (rs : List (Ranking Value))
    → ((i : ℕ) → count (λ (r : Ranking Value). r.index == i) rs ≤ 1)
    → Distinct rs
Distinct-of_count [] h = tt
Distinct-of_count (r ∷ rs) h = (
  All-uncounted (λ s. ¬ (s.index ≡ r.index)) (λ s. s.index == r.index) rs
      (λ s other same. ground (arith, other, same)) (ground (arith, h r.index)),
  Distinct-of_count rs (λ i. ground (arith, h i)),
)

length-take {ℓ} : {A : Type ℓ} (n : ℕ) (xs : List A) → length (take n xs) ≡ min n (length xs)
length-take zero xs = omega arith
length-take (suc n) [] = omega arith
length-take (suc n) (x ∷ xs) = omega (arith, length-take n xs)

length-rankings_from : (i : ℕ) (xs : List Value) → length (rankings_from i xs) ≡ length xs
unfolding rankings_from
length-rankings_from i [] = refl
length-rankings_from i (x ∷ xs) = ap suc (length-rankings_from (i + 1) xs)

count-rankings_from :
    (i j : ℕ) (xs : List Value)
    → (count (λ (r : Ranking Value). r.index == i) (rankings_from j xs) ≤ 1)
      × (i < j → count (λ (r : Ranking Value). r.index == i) (rankings_from j xs) ≡ 0)
unfolding rankings_from
count-rankings_from i j [] = (omega arith, λ lt. refl)
count-rankings_from i j (x ∷ xs) = ground (arith, count-rankings_from i (j + 1) xs)

count-out_of_range :
    (n j : ℕ) (xs : List Value)
    → j + length xs ≤ n
    → count (λ (r : Ranking Value). not (ltb r.index n)) (rankings_from j xs) ≡ 0
unfolding rankings_from
count-out_of_range n j [] h = refl
count-out_of_range n j (x ∷ xs) h =
    ground (arith, h, count-out_of_range n (j + 1) xs (omega (arith, h)))

count-no_number :
    (j : ℕ) (xs : List Value)
    → All (λ x. is_number x ≡ true) xs
    → count (λ (r : Ranking Value). not (is_number r.score)) (rankings_from j xs) ≡ 0
unfolding rankings_from
count-no_number j [] h = refl
count-no_number j (x ∷ xs) h = ground (arith, h.0, count-no_number (j + 1) xs h.1)

-- The result of a rerank, as the worker sends it.
abbrev pub rank_reply : String → List (Ranking Value) → List (String × Value)
rank_reply model rs =
    ("model", str model) ∷ ("rankings", arr (items_of (map ranking_value rs))) ∷ []

module _ (le : Value → Value → Bool)
    (le_trans : (a b c : Value) → le a b ≡ true → le b c ≡ true → le a c ≡ true)
    (le_total : (a b : Value) → le a b ≡ false → le b a ≡ true) where
  module _ (scores : List Value) (top_k : ℕ) where
    count-rank-le :
        (p : Ranking Value → Bool)
        → count p (rank le scores top_k) ≤ count p (rankings_from 0 scores)
    count-rank-le p = omega (arith, (rank_best le le_trans le_total scores top_k p).2)

    rank-IsRanking : IsRanking le le_trans le_total (length scores) (rank le scores top_k)
    rank-IsRanking = record {
      in_range =
          All-uncounted (λ r. r.index < length scores) (λ r. not (ltb r.index (length scores))) _
            (λ r h. ground (arith, h))
            (omega (
              arith,
              count-rank-le (λ r. not (ltb r.index (length scores))),
              count-out_of_range (length scores) 0 scores (omega arith),
            ));
      distinct = Distinct-of_count _ (λ i.
          omega (arith, count-rank-le (λ r. r.index == i), (count-rankings_from i 0 scores).0));
      sorted = (rank_best le le_trans le_total scores top_k (λ r. true)).0;
    }

    rank-IsNumber : All (λ x. is_number x ≡ true) scores → All IsNumber (rank le scores top_k)
    rank-IsNumber h =
        All-uncounted IsNumber (λ r. not (is_number r.score)) _ (λ r k. ground (arith, k))
          (omega (arith, count-rank-le (λ r. not (is_number r.score)), count-no_number 0 scores h))

    length-rank : length (rank le scores top_k) ≡ min top_k (length scores)
    unfolding rank
    length-rank = omega (
      arith,
      length-take top_k (sort (ranks_before le) (rankings_from 0 scores)),
      length-sort (ranks_before le) (rankings_from 0 scores),
      length-rankings_from 0 scores,
    )

  unseen :
      (rs : List (Ranking Value))
      → All (λ (r : Ranking Value). any (λ i. i == r.index) [] ≡ false) rs
  unseen [] = tt
  unseen (r ∷ rs) = (refl, unseen rs)

  -- For a comparison of scores that is total and transitive: a tool takes the ranking that the worker makes
  -- of scores that are numbers, one for each document, and sends with the name of a model, and takes it as
  -- the worker made it.
  pub rankings-rank :
      (model : String) (scores : List Value) (top_k : ℕ)
      → 0 < length (codes model)
      → All (λ x. is_number x ≡ true) scores
      → rankings le (rank_reply model (rank le scores top_k)) (length scores) top_k
        ≡ some (rank le scores top_k)
  unfolding rankings field is_name
  rankings-rank model scores top_k named numbers =
      let rs = rank le scores top_k in
      let listed = items-items_of (map ranking_value rs) in
      let long = length-map ranking_value rs ∙ length-rank scores top_k in
      let taken =
        rankings_loop-values le le_trans le_total (length scores) [] none rs
          (rank-IsRanking scores top_k) (tt, unseen rs) (rank-IsNumber scores top_k numbers) in
      ground (arith, named, listed, long, taken)
