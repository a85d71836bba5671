-- ===== src/Mcp/Tools/Replies/Rankings.antt =====
-- The rankings that `_rankings` of mcp_server/bridge_mcp/tools.py takes, and those that the worker sends.
use php_python_ai_bridge.Base.{
  ℕ, suc, min, ◌≡◌, ◌<◌, refl, sym, ap, ◌∙◌, subst, Bool, true, false, not, ◌&&◌, List, [], ◌∷◌,
  map, any, Option, none, some, String, ltb, ◌==◌, nat_eq, length, All, arith, elim_ind,
  Option-cases, inl, inr,
}
use php_python_ai_bridge.Base.Sort.{IsSorted}
use php_python_ai_bridge.Json.{Value, int, obj, members_of, field, whole}
use php_python_ai_bridge.Tasks.Rerank.{Ranking, ranks_before}
use php_python_ai_bridge.Tasks.Rerank.Laws.{ranks_before_trans}
use php_python_ai_bridge.Mcp.Tools.Replies.{
  is_number, ranking_of, in_order, also_ranked, rankings_loop, rankings, list_of,
}

-- No two items have the same index.
abbrev pub Distinct : List (Ranking Value) → Type 0
Distinct [] = Unit
Distinct (r ∷ rs) = All (λ s. ¬ (s.index ≡ r.index)) rs × Distinct rs

-- What the worker sends of a ranking.
abbrev pub ranking_value : Ranking Value → Value
ranking_value r = obj (members_of (("index", int r.index) ∷ ("score", r.score) ∷ []))

abbrev pub IsNumber : Ranking Value → Type 0
IsNumber r = is_number r.score ≡ true

ranking_of-value : (r : Ranking Value) → IsNumber r → ranking_of (ranking_value r) ≡ some r
unfolding ranking_of field whole
ranking_of-value r h = ground (arith, h)

-- Python's comparison of numbers is total and transitive; what `le` says of other values is not asked.
module _ (le : Value → Value → Bool)
    (le_trans : (a b c : Value) → le a b ≡ true → le b c ≡ true → le a c ≡ true)
    (le_total : (a b : Value) → le a b ≡ false → le b a ≡ true) where
  abbrev Behind : Option (Ranking Value) → List (Ranking Value) → Type 0
  Behind none rs = Unit
  Behind (some p) rs = All (λ r. ranks_before le p r ≡ true) rs

  -- Items with indexes below `size`, none twice, in order: best score first, then smallest index.
  pub record IsRanking (size : ℕ) (rs : List (Ranking Value)) : Type 0 where
    pub in_range : All (λ r. r.index < size) rs
    pub distinct : Distinct rs
    pub sorted : IsSorted (ranks_before le) rs

  -- The same behind an item and the indexes seen.
  abbrev Follows : List ℕ → Option (Ranking Value) → List (Ranking Value) → Type 0
  Follows seen previous rs = Behind previous rs × All (λ r. any (λ i. i == r.index) seen ≡ false) rs

  in_order-ranks_before : (p r : Ranking Value) → in_order le (some p) r ≡ ranks_before le p r
  unfolding in_order ranks_before
  in_order-ranks_before p r = ground (arith, le_total p.score r.score, le_total r.score p.score)

  abbrev IsTaken : ℕ → List ℕ → Option (Ranking Value) → Option (List (Ranking Value)) → Type 0
  IsTaken size seen previous none = Unit
  IsTaken size seen previous (some rs) = IsRanking size rs × Follows seen previous rs

  before_trans :
      (p r s : Ranking Value)
      → ranks_before le p r ≡ true
      → ranks_before le r s ≡ true
      → ranks_before le p s ≡ true
  before_trans = ranks_before_trans le le_trans le_total

  Behind-first :
      (previous : Option (Ranking Value)) (r : Ranking Value) (rs : List (Ranking Value))
      → in_order le previous r ≡ true
      → Behind (some r) rs
      → Behind previous (r ∷ rs)
  Behind-first none r rs h k = tt
  Behind-first (some p) r rs h k =
      let first : ranks_before le p r ≡ true = sym (in_order-ranks_before p r) ∙ h in
      (first, go rs k)
    where
      first : ranks_before le p r ≡ true
      first = sym (in_order-ranks_before p r) ∙ h

      go : (ss : List (Ranking Value)) → Behind (some r) ss → Behind (some p) ss
      go [] k = tt
      go (s ∷ ss) k = (before_trans p r s first k.0, go ss k.1)

  unseen-first :
      (i : ℕ) (seen : List ℕ) (rs : List (Ranking Value))
      → All (λ s. any (λ j. j == s.index) (i ∷ seen) ≡ false) rs
      → All (λ s. ¬ (s.index ≡ i)) rs × All (λ s. any (λ j. j == s.index) seen ≡ false) rs
  unseen-first i seen [] h = (tt, tt)
  unseen-first i seen (s ∷ rs) h =
      let rest = unseen-first i seen rs h.1 in
      ((λ same. ground (arith, h.0, same), rest.0), (ground (arith, h.0), rest.1))

  also-IsTaken :
      (size : ℕ) (seen : List ℕ) (previous : Option (Ranking Value)) (r : Ranking Value)
      (rest : Option (List (Ranking Value)))
      → (ltb r.index size && not (any (λ i. i == r.index) seen) && in_order le previous r) ≡ true
      → IsTaken size (r.index ∷ seen) (some r) rest
      → IsTaken size seen previous (also_ranked le r rest)
  also-IsTaken size seen previous r none h k = tt
  also-IsTaken size seen previous r (some rs) h k =
      let others = unseen-first r.index seen rs k.1.1 in
      (
        record {
          in_range = (ground (arith, h), k.0.in_range);
          distinct = (others.0, k.0.distinct);
          sorted = (k.1.0, k.0.sorted);
        },
        (Behind-first previous r rs (ground (arith, h)) k.1.0, (ground (arith, h), others.1)),
      )

  next-IsTaken :
      (size : ℕ) (seen : List ℕ) (previous : Option (Ranking Value)) (o : Option (Ranking Value))
      (rest : Ranking Value → Option (List (Ranking Value)))
      → ((r : Ranking Value) → IsTaken size (r.index ∷ seen) (some r) (rest r))
      → IsTaken size seen previous (elim o [
        | none ↦ none
        | some r ↦
            elim (ltb r.index size
              && not (any (λ i. i == r.index) seen)
              && in_order le previous r) [ true ↦ also_ranked le r (rest r) | false ↦ none ]
      ])
  next-IsTaken size seen previous none rest h = tt
  next-IsTaken size seen previous (some r) rest h =
      elim_ind (IsTaken size seen previous)
        (ltb r.index size && not (any (λ i. i == r.index) seen) && in_order le previous r)
        (λ good. also-IsTaken size seen previous r (rest r) good (h r)) (λ bad. tt)

  Behind-nil : (p : Option (Ranking Value)) → Behind p []
  Behind-nil none = tt
  Behind-nil (some p) = tt

  rankings_loop-IsTaken :
      (size : ℕ) (seen : List ℕ) (previous : Option (Ranking Value)) (vs : List Value)
      → IsTaken size seen previous (rankings_loop le size seen previous vs)
  unfolding rankings_loop
  rankings_loop-IsTaken size seen previous [] =
      (record { in_range = tt; distinct = tt; sorted = tt }, (Behind-nil previous, tt))
  rankings_loop-IsTaken size seen previous (v ∷ vs) =
      next-IsTaken size seen previous (ranking_of v) _
        (λ r. rankings_loop-IsTaken size (r.index ∷ seen) (some r) vs)

  AllUnseen-also :
      (i : ℕ) (seen : List ℕ) (rs : List (Ranking Value))
      → All (λ s. ¬ (s.index ≡ i)) rs
      → All (λ s. any (λ j. j == s.index) seen ≡ false) rs
      → All (λ s. any (λ j. j == s.index) (i ∷ seen) ≡ false) rs
  AllUnseen-also i seen [] h k = tt
  AllUnseen-also i seen (s ∷ rs) h k = (ground (arith, h.0, k.0), AllUnseen-also i seen rs h.1 k.1)

  first-in_order :
      (previous : Option (Ranking Value)) (r : Ranking Value) (rs : List (Ranking Value))
      → Behind previous (r ∷ rs)
      → in_order le previous r ≡ true
  unfolding in_order
  first-in_order none r rs h = refl
  first-in_order (some p) r rs h = in_order-ranks_before p r ∙ h.0

  -- Each ranking that is described is taken.
  pub rankings_loop-values :
      (size : ℕ) (seen : List ℕ) (previous : Option (Ranking Value)) (rs : List (Ranking Value))
      → IsRanking size rs
      → Follows seen previous rs
      → All IsNumber rs
      → rankings_loop le size seen previous (map ranking_value rs) ≡ some rs
  unfolding rankings_loop
  rankings_loop-values size seen previous [] h k n = refl
  rankings_loop-values size seen previous (r ∷ rs) h k n =
      let rest =
        rankings_loop-values size (r.index ∷ seen) (some r) rs
          (record { in_range = h.in_range.1; distinct = h.distinct.1; sorted = h.sorted.1 })
          (h.sorted.0, AllUnseen-also r.index seen rs h.distinct.0 k.1.1) n.1 in
      ground
        (arith, ranking_of-value r n.0, rest, h.in_range.0, k.1.0, first-in_order previous r rs k.0)

  IsLong : ℕ → Option (List (Ranking Value)) → Type 0
  IsLong n none = Unit
  IsLong n (some rs) = length rs ≡ n

  next-IsLong :
      (n : ℕ) (good : Ranking Value → Bool) (o : Option (Ranking Value))
      (rest : Ranking Value → Option (List (Ranking Value)))
      → ((r : Ranking Value) → IsLong n (rest r))
      → IsLong (suc n) (elim o [
        | none ↦ none
        | some r ↦ elim (good r) [ true ↦ also_ranked le r (rest r) | false ↦ none ]
      ])
  unfolding IsLong
  next-IsLong n good none rest h = tt
  next-IsLong n good (some r) rest h =
      elim_ind (IsLong (suc n)) (good r) (λ _. also (rest r) (h r)) (λ _. tt)
    where
      also : (o : Option (List (Ranking Value))) → IsLong n o → IsLong (suc n) (also_ranked le r o)
      also none k = tt
      also (some rs) k = ap suc k

  rankings_loop-IsLong :
      (size : ℕ) (seen : List ℕ) (previous : Option (Ranking Value)) (vs : List Value)
      → IsLong (length vs) (rankings_loop le size seen previous vs)
  unfolding rankings_loop IsLong
  rankings_loop-IsLong size seen previous [] = refl
  rankings_loop-IsLong size seen previous (v ∷ vs) =
      next-IsLong (length vs)
        (λ r. ltb r.index size && not (any (λ i. i == r.index) seen) && in_order le previous r)
        (ranking_of v) _ (λ r. rankings_loop-IsLong size (r.index ∷ seen) (some r) vs)

  -- For a comparison of scores that is total and transitive: a ranking that a tool takes of a result
  -- has the length asked for, or one item for each document where there are fewer; its indexes are those
  -- of documents, none twice; and the items are in order, best score first, then smallest index.
  rankings-IsRanking :
      (result : List (String × Value)) (size top_k : ℕ) (rs : List (Ranking Value))
      → rankings le result size top_k ≡ some rs
      → (length rs ≡ min top_k size) × IsRanking size rs
  unfolding rankings IsLong
  rankings-IsRanking result size top_k rs e =
      elim (Option-cases (list_of (field "rankings" result))) [
        | inl missing ↦ absurd (ground (arith, e, missing))
        | inr (vs, listed) ↦
            let taken : rankings_loop le size [] none vs ≡ some rs = ground (arith, e, listed) in
            let long : length vs ≡ min top_k size = ground (arith, e, listed) in
            (
              subst (IsLong (length vs)) taken (rankings_loop-IsLong size [] none vs) ∙ long,
              (subst (IsTaken size [] none) taken (rankings_loop-IsTaken size [] none vs)).0,
            )
      ]
