-- ===== src/Tasks/Cards/Laws.antt =====
-- The ranges that are masked as card numbers.
use php_python_ai_bridge.Base.{
  ℕ, zero, suc, ◌+◌, ◌≤◌, ◌<◌, ◌≡◌, refl, sym, ◌∙◌, ap, subst, inl, inr, Bool, true, ◌&&◌, List, [],
  ◌∷◌, ◌++◌, Option, none, some, ltb, leb, ◌==◌, nat_eq, arith, length, length-append, append_assoc,
  append-nil, filter, All, Option-cases, Bool-cases, if_ind, if_false,
}
use php_python_ai_bridge.Tasks.Luhn.{luhn}
use php_python_ai_bridge.Tasks.Cards.{
  Group, Range, ranges_from, card_ranges, ranges_of, counts, skip, pick_from, pick, cards_loop,
  cards,
}

abbrev digits_of : List Group → List ℕ
digits_of [] = []
digits_of (g ∷ gs) = g.digits ++ digits_of gs

-- A range is of whole groups, whose 13 to 19 digits pass the checksum.
pub record IsCard (groups : List Group) (r : Range) : Type 0 where
  pub before : List Group
  card : List Group
  pub after : List Group
  pub parts : groups ≡ before ++ (card ++ after)
  starts_at : length before ≡ r.first
  ends_at : r.first + length card ≡ r.last + 1
  checksum : luhn (digits_of card) ≡ true
  at_least : 13 ≤ length (digits_of card)
  at_most : length (digits_of card) ≤ 19

digits_of-append : (xs ys : List Group) → digits_of (xs ++ ys) ≡ digits_of xs ++ digits_of ys
digits_of-append [] ys = refl
digits_of-append (x ∷ xs) ys =
    ap (λ l. x.digits ++ l) (digits_of-append xs ys)
    ∙ sym (append_assoc x.digits (digits_of xs) (digits_of ys))

All-append {ℓ κ} :
    {A : Type ℓ} (P : A → Type κ) (xs ys : List A) → All P xs → All P ys → All P (xs ++ ys)
All-append P [] ys h k = k
All-append P (x ∷ xs) ys h k = (h.0, All-append P xs ys h.1 k)

All-filter {ℓ κ} :
    {A : Type ℓ} (P : A → Type κ) (p : A → Bool) (xs : List A) → All P xs → All P (filter p xs)
All-filter P p [] h = tt
All-filter P p (x ∷ xs) h =
    if_ind (All P) (p x) (λ _. (h.0, All-filter P p xs h.1)) (λ _. All-filter P p xs h.1)

module _ (groups : List Group) where
  ranges_from-All :
      (first last : ℕ) (digits : List ℕ) (pre mid gs : List Group)
      → groups ≡ pre ++ (mid ++ gs)
      → length pre ≡ first
      → first + length mid ≡ last
      → digits ≡ digits_of mid
      → All (IsCard groups) (ranges_from first last digits gs)
  unfolding ranges_from
  ranges_from-All first last digits pre mid [] split at_first at_last same = tt
  ranges_from-All first last digits pre mid (g ∷ gs) split at_first at_last same =
      let longer = digits ++ g.digits in
      let split' : groups ≡ pre ++ ((mid ++ (g ∷ [])) ++ gs) =
        split ∙ ap (λ l. pre ++ l) (sym (append_assoc mid (g ∷ []) gs)) in
      let same' : longer ≡ digits_of (mid ++ (g ∷ [])) =
        ap (λ l. l ++ g.digits) same
        ∙ ap (λ l. digits_of mid ++ l) (sym (append-nil g.digits))
        ∙ sym (digits_of-append mid (g ∷ [])) in
      let ends : first + length (mid ++ (g ∷ [])) ≡ last + 1 =
        omega (arith, at_last, length-append mid (g ∷ [])) in
      let rest : All (IsCard groups) (ranges_from first (last + 1) longer gs) =
        ranges_from-All first (last + 1) longer pre (mid ++ (g ∷ [])) gs split' at_first ends
          same' in
      if_ind (All (IsCard groups)) (ltb 19 (length longer)) (λ _. tt)
        λ short.
          if_ind (All (IsCard groups)) (leb 13 (length longer) && luhn longer)
            (λ good. (
              record {
                before = pre;
                card = mid ++ (g ∷ []);
                after = gs;
                parts = split';
                starts_at = at_first;
                ends_at = ends;
                checksum = ap luhn (sym same') ∙ ground (arith, good);
                at_least = subst (λ l. 13 ≤ length l) same' (ground (arith, good));
                at_most = subst (λ l. length l ≤ 19) same' (ground (arith, short));
              },
              rest,
            ))
            (λ _. rest)

  card_ranges-All :
      (first : ℕ) (pre gs : List Group)
      → groups ≡ pre ++ gs
      → length pre ≡ first
      → All (IsCard groups) (card_ranges first gs)
  unfolding card_ranges
  card_ranges-All first pre [] split at_first = tt
  card_ranges-All first pre (g ∷ gs) split at_first =
      All-append (IsCard groups) (ranges_from first first [] (g ∷ gs)) (card_ranges (first + 1) gs)
        (ranges_from-All first first [] pre [] (g ∷ gs) split at_first (omega arith) refl)
        (card_ranges-All (first + 1) (pre ++ (g ∷ [])) gs
          (split ∙ sym (append_assoc pre (g ∷ []) gs))
          (omega (arith, at_first, length-append pre (g ∷ []))))

  ranges_of-All :
      (rs : List Range) (ns : List ℕ)
      → All (IsCard groups) rs
      → All (All (IsCard groups)) (ranges_of rs ns)
  unfolding ranges_of
  ranges_of-All rs [] h = tt
  ranges_of-All rs (n ∷ ns) h =
      (All-filter (IsCard groups) (λ r. r.count == n) rs h, ranges_of-All rs ns h)

  skip-All :
      (cursor : ℕ) (rs : List Range) → All (IsCard groups) rs → All (IsCard groups) (skip cursor rs)
  unfolding skip
  skip-All cursor [] h = tt
  skip-All cursor (r ∷ rs) h =
      if_ind (All (IsCard groups)) (ltb r.first cursor) (λ _. skip-All cursor rs h.1) (λ _. h)

  -- A list that is empty, or begins at the cursor or after it.
  abbrev FromCursor : ℕ → List Range → Type 0
  FromCursor cursor [] = Unit
  FromCursor cursor (r ∷ rs) = cursor ≤ r.first

  skip-FromCursor : (cursor : ℕ) (rs : List Range) → FromCursor cursor (skip cursor rs)
  unfolding skip
  skip-FromCursor cursor [] = tt
  skip-FromCursor cursor (r ∷ rs) =
      if_ind (FromCursor cursor) (ltb r.first cursor) (λ _. skip-FromCursor cursor rs)
        (λ late. ground (arith, late))

  abbrev Picked : ℕ → Option Range → Type 0
  Picked cursor none = Unit
  Picked cursor (some r) = IsCard groups r × (cursor ≤ r.first)

  pick_from-Picked :
      (cursor : ℕ) (rs : List Range) (rest : Option Range × List (List Range))
      (behind : List (List Range))
      → All (IsCard groups) rs
      → FromCursor cursor rs
      → All (All (IsCard groups)) behind
      → Picked cursor rest.0
      → All (All (IsCard groups)) rest.1
      → Picked cursor (pick_from rs rest behind).0
        × All (All (IsCard groups)) (pick_from rs rest behind).1
  unfolding pick_from
  pick_from-Picked cursor [] (found, lists) behind h f b p l = (p, (tt, l))
  pick_from-Picked cursor (r ∷ rs) (found, lists) behind h f b p l = ((h.0, f), (h, b))

  pick-Picked :
      (cursor : ℕ) (lists : List (List Range))
      → All (All (IsCard groups)) lists
      → Picked cursor (pick cursor lists).0 × All (All (IsCard groups)) (pick cursor lists).1
  unfolding pick
  pick-Picked cursor [] h = (tt, tt)
  pick-Picked cursor (l ∷ ls) h =
      let (p, kept) = pick-Picked cursor ls h.1 in
      pick_from-Picked cursor (skip cursor l) (pick cursor ls) ls (skip-All cursor l h.0)
        (skip-FromCursor cursor l) h.1 p kept

  IsCard-forward : (r : Range) → IsCard groups r → r.first ≤ r.last
  IsCard-forward r c = forward c.card c.at_least c.ends_at
    where
      forward :
          (card : List Group)
          → 13 ≤ length (digits_of card)
          → r.first + length card ≡ r.last + 1
          → r.first ≤ r.last
      forward [] low ends = absurd (omega (arith, low))
      forward (g ∷ gs) low ends = omega (arith, ends)

  IsCard-inside : (r : Range) → IsCard groups r → r.last + 1 ≤ length groups
  IsCard-inside r c = omega (
    arith,
    c.starts_at,
    c.ends_at,
    ap length c.parts,
    length-append c.before (c.card ++ c.after),
    length-append c.card c.after,
  )

  -- The ranges begin at a cursor or after it, each after the last group of the one before.
  abbrev pub AreApart : ℕ → List Range → Type 0
  AreApart cursor [] = Unit
  AreApart cursor (r ∷ rs) = (cursor ≤ r.first) × AreApart (r.last + 1) rs

  abbrev Yields : ℕ → ℕ → ℕ → List (List Range) → Type 0
  Yields fuel cursor total lists =
      (rs : List Range) × (cards_loop fuel cursor total lists ≡ some rs)
      × All (IsCard groups) rs
      × AreApart cursor rs

  cards_loop-Yields :
      (fuel cursor : ℕ) (lists : List (List Range))
      → cursor ≤ length groups
      → length groups < cursor + fuel
      → All (All (IsCard groups)) lists
      → Yields fuel cursor (length groups) lists
  unfolding cards_loop
  cards_loop-Yields zero cursor lists within enough h = absurd (omega (arith, within, enough))
  cards_loop-Yields (suc fuel) cursor lists within enough h =
      elim (Bool-cases (ltb cursor (length groups))) [
        | inr over ↦ ([], if_false _ _ _ over, tt, tt)
        | inl inside ↦
            let (picked, kept) = pick-Picked cursor lists h in
            elim (Option-cases (pick cursor lists).0) [
              | inl none_left ↦
                  ([], rw (inside, cards_loop) (rw (none_left, cards_loop) refl), tt, tt)
              | inr (r, found) ↦
                  let (card, later) = subst (Picked cursor) found picked in
                  let (rs, runs, good, apart) =
                    cards_loop-Yields fuel (r.last + 1) (pick cursor lists).1 (IsCard-inside r card)
                      (omega (arith, enough, later, IsCard-forward r card)) kept in
                  (
                    r ∷ rs,
                    rw (inside, cards_loop) (rw (found, cards_loop) (rw (runs, cards_loop) refl)),
                    (card, good),
                    (later, apart),
                  )
            ]
      ]

-- `_cards` ends on every run; each range that it yields is of whole groups of the run, whose 13 to 19 digits pass
-- Luhn's checksum, and begins after the last group of the range before.
pub cards-IsCard :
    (groups : List Group)
    → (rs : List Range) × (cards groups ≡ some rs) × All (IsCard groups) rs × AreApart groups 0 rs
unfolding cards
cards-IsCard groups =
    cards_loop-Yields groups (suc (length groups)) 0 (ranges_of (card_ranges 0 groups) counts)
      (omega arith) (omega arith)
      (ranges_of-All groups (card_ranges 0 groups) counts
        (card_ranges-All groups 0 [] groups refl refl))
