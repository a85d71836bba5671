-- ===== src/Mcp/Tools/Search/Best.antt =====
-- The chunks that `index_files.search` picks, and what `bridge_search` returns of them without a rerank.
use php_python_ai_bridge.Base.{
  ℕ, zero, suc, ◌+◌, ◌*◌, min, max, ◌≡◌, ◌≤◌, refl, sym, ◌∙◌, ap, Bool, true, false, List, [], ◌∷◌,
  map, take, drop, none, arith, length, All, count, if_true, if_false, Bool-cases, inl, inr,
}
use php_python_ai_bridge.Base.Sort.{sort, place, length-sort, IsSorted}
use php_python_ai_bridge.Tasks.Rerank.{Ranking, rankings_from, ranks_before, rank}
use php_python_ai_bridge.Tasks.Rerank.Laws.{rank_best}
use php_python_ai_bridge.Mcp.Index.Format.{Chunk}
use php_python_ai_bridge.Mcp.Tools.Search.{
  Scored, scored_from, tuple_ge, nlargest, search, wanted, candidate, select, Hit, hit, unranked,
}

take-take {ℓ} :
    {A : Type ℓ} (k w : ℕ) (xs : List A) → min (length xs) k ≤ w → take k (take w xs) ≡ take k xs
take-take zero w xs h = refl
take-take (suc k) zero [] h = refl
take-take (suc k) zero (x ∷ xs) h = absurd (omega (arith, h))
take-take (suc k) (suc w) [] h = refl
take-take (suc k) (suc w) (x ∷ xs) h = ap (λ l. x ∷ l) (take-take k w xs (omega (arith, h)))

take-map {ℓ κ} :
    {A : Type ℓ} {B : Type κ} (f : A → B) (k : ℕ) (xs : List A)
    → take k (map f xs) ≡ map f (take k xs)
take-map f zero xs = refl
take-map f (suc k) [] = refl
take-map f (suc k) (x ∷ xs) = ap (λ l. f x ∷ l) (take-map f k xs)

length-take {ℓ} : {A : Type ℓ} (k : ℕ) (xs : List A) → length (take k xs) ≡ min (length xs) k
length-take zero xs = omega arith
length-take (suc k) [] = omega arith
length-take (suc k) (x ∷ xs) = omega (arith, length-take k xs)

map-map {ℓ κ μ} :
    {A : Type ℓ} {B : Type κ} {C : Type μ} (f : B → C) (g : A → B) (xs : List A)
    → map f (map g xs) ≡ map (λ x. f (g x)) xs
map-map f g [] = refl
map-map f g (x ∷ xs) = ap (λ l. f (g x) ∷ l) (map-map f g xs)

module _ {S : Type 0} (le : S → S → Bool) (chunks : ℕ → Chunk) where
  abbrev ranked_hit : Ranking S → Hit S
  ranked_hit r = hit none (candidate chunks r)

  length-from : (i : ℕ) (xs : List S) → length (rankings_from i xs) ≡ length xs
  unfolding rankings_from
  length-from i [] = refl
  length-from i (x ∷ xs) = ap suc (length-from (i + 1) xs)

-- A sort by an order keeps its places under a map that keeps the order.
module _ {ℓ κ} {A : Type ℓ} {B : Type κ} (le : A → A → Bool) (ge : B → B → Bool) (f : A → B)
    (keeps : (a b : A) → ge (f a) (f b) ≡ le a b) where
  map-place : (a : A) (xs : List A) → map f (place le a xs) ≡ place ge (f a) (map f xs)
  unfolding place
  map-place a [] = refl
  map-place a (x ∷ xs) = elim (Bool-cases (le a x)) [
    | inl first ↦ rw (first, place) (sym (if_true (ge (f a) (f x)) _ _ (keeps a x ∙ first)))
    | inr later ↦
        rw (later, place)
          (ap (λ l. f x ∷ l) (map-place a xs)
            ∙ sym (if_false (ge (f a) (f x)) _ _ (keeps a x ∙ later)))
  ]

  map-sort : (xs : List A) → map f (sort le xs) ≡ sort ge (map f xs)
  unfolding sort
  map-sort [] = refl
  map-sort (x ∷ xs) = map-place x (sort le xs) ∙ ap (place ge (f x)) (map-sort xs)

module _ {S : Type 0} (le : S → S → Bool)
    (le_trans : (a b c : S) → le a b ≡ true → le b c ≡ true → le a c ≡ true)
    (le_total : (a b : S) → le a b ≡ false → le b a ≡ true) where
  abbrev ranking : Scored S → Ranking S
  ranking p = record { index = p.row; score = p.score }

  map-scored_from : (i : ℕ) (xs : List S) → map ranking (scored_from i xs) ≡ rankings_from i xs
  unfolding scored_from rankings_from
  map-scored_from i [] = refl
  map-scored_from i (x ∷ xs) =
      ap (λ l. record { index = i; score = x } ∷ l) (map-scored_from (i + 1) xs)

  tuple_ge-ranks_before :
      (a b : Scored S) → ranks_before le (ranking a) (ranking b) ≡ tuple_ge le a b
  unfolding ranks_before tuple_ge
  tuple_ge-ranks_before a b = ground (arith, le_total a.score b.score, le_total b.score a.score)

  -- The search of the index and the ranking of the worker pick the same.
  search-rank : (scores : List S) (n : ℕ) → search le scores n ≡ rank le scores n
  unfolding search nlargest rank
  search-rank scores n =
      sym (take-map ranking n (sort (tuple_ge le) (scored_from 0 scores)))
      ∙ ap (take n) (
          map-sort (tuple_ge le) (ranks_before le) ranking tuple_ge-ranks_before
            (scored_from 0 scores)
          ∙ ap (sort (ranks_before le)) (map-scored_from 0 scores))

  module _ (chunks : ℕ → Chunk) where
    -- The hits show chunks of the index, as many as are asked for or there are, in order: the best score first, and the lower
    -- chunk first where scores are equal; the rest of the index stands behind each of them.
    pub record AreBest (scores : List S) (top_k : ℕ) (hits : List (Hit S)) : Type 0 where
      pub taken : List (Ranking S)
      pub rest : List (Ranking S)
      pub shown : hits ≡ map (ranked_hit le chunks) taken
      many : length taken ≡ min (length scores) top_k
      pub in_order : IsSorted (ranks_before le) taken
      best : All (λ r. All (λ d. ranks_before le r d ≡ true) rest) taken
      pub whole :
          (p : Ranking S → Bool) → count p taken + count p rest ≡ count p (rankings_from 0 scores)

    unranked-rank :
        (scores : List S) (top_k : ℕ)
        → unranked (select le chunks scores top_k) top_k
          ≡ map (ranked_hit le chunks) (rank le scores top_k)
    unfolding unranked select rank wanted
    unranked-rank scores top_k =
        let sorted = sort (ranks_before le) (rankings_from 0 scores) in
        let w = min (length scores) (max (4 * top_k) 20) in
        let enough : min (length sorted) top_k ≤ w = omega (
          arith,
          length-sort (ranks_before le) (rankings_from 0 scores),
          length-from le chunks 0 scores,
        ) in
        ap (λ l. take top_k (map (hit none) (map (candidate chunks) l))) (search-rank scores w)
        ∙ ap (take top_k) (map-map (hit none) (candidate chunks) (take w sorted))
        ∙ take-map (ranked_hit le chunks) top_k (take w sorted)
        ∙ ap (map (ranked_hit le chunks)) (take-take top_k w sorted enough)

    length-rank :
        (scores : List S) (top_k : ℕ) → length (rank le scores top_k) ≡ min (length scores) top_k
    unfolding rank
    length-rank scores top_k =
        length-take top_k (sort (ranks_before le) (rankings_from 0 scores))
        ∙ ap (λ n. min n top_k)
            (length-sort (ranks_before le) (rankings_from 0 scores)
              ∙ length-from le chunks 0 scores)

    -- For a total and transitive order of scores: a search without a rerank returns as many chunks as are asked for,
    -- or all there are; they are in order, the best score first and the lower chunk first where scores are
    -- equal; every chunk of the whole index that is not returned stands behind them, though the
    -- search looks only at its candidates; and the two parts hold each chunk as often as the index does.
    pub unranked-AreBest :
        (scores : List S) (top_k : ℕ)
        → AreBest scores top_k (unranked (select le chunks scores top_k) top_k)
    unranked-AreBest scores top_k =
        let best = rank_best le le_trans le_total scores top_k in
        record {
          taken = rank le scores top_k;
          rest = drop top_k (sort (ranks_before le) (rankings_from 0 scores));
          shown = unranked-rank scores top_k;
          many = length-rank scores top_k;
          in_order = (best (λ r. true)).0;
          best = (best (λ r. true)).1;
          whole = λ p. (best p).2;
        }
