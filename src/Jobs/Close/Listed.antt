-- ===== src/Jobs/Close/Listed.antt =====
-- Lists of ids that name every job of a table that a test selects.
use php_python_ai_bridge.Base.{
  ◌≡◌, ◌≤◌, refl, sym, true, false, not, ◌||◌, inl, inr, List, [], ◌∷◌, some, String, arith,
  Bool-cases, subst, ap, Bool, All, All-map2, All-of_count-zero, count, any, filter, length, ◌==◌,
  string_eq, string_beq_iff, nat_eq, if_true, if_false,
}
use php_python_ai_bridge.Jobs.Types.{Job, unfinished}
use php_python_ai_bridge.Jobs.Table.{find, put}
use php_python_ai_bridge.Jobs.Finish.{ids}
use php_python_ai_bridge.Jobs.Submit.{active_count}

pub put-count :
    (x : String) (j' : Job) (js : List Job) (j : Job)
    → find j'.id js ≡ some j
    → count (λ k. k.id == x) (put j' js) ≡ count (λ k. k.id == x) js
unfolding find put
put-count x j' [] j h = absurd (ground arith)
put-count x j' (k ∷ ks) j h = ground (
  arith,
  put-count x j' ks j,
  string_beq_iff k.id j'.id,
  string_beq_iff k.id x,
  string_beq_iff j'.id x,
)

pub length-filter : (js : List Job) → length (filter unfinished js) ≡ active_count js
length-filter [] = refl
length-filter (j ∷ js) = ground (arith, length-filter js)

module _ (p : Job → Bool) where
  -- A job that the test selects is one of the listed ids.
  abbrev pub IsListed : List String → Job → Type 0
  IsListed is j = (not (p j) || any (λ i. i == j.id) is) ≡ true

  pub unlist :
      (i : String) (is : List String) (js : List Job)
      → count (λ k. k.id == i) js ≡ 0
      → All (IsListed (i ∷ is)) js
      → All (IsListed is) js
  unlist i is js gone h =
      All-map2 (λ k. (k.id == i) ≡ false) (IsListed (i ∷ is)) (IsListed is)
        (λ k other listed.
          ground (arith, other, listed, string_beq_iff i k.id, string_beq_iff k.id i))
        js (All-of_count-zero (λ k. k.id == i) js gone) h

  pub put-IsListed :
      (i : String) (is : List String) (js : List Job) (j' : Job)
      → count (λ k. k.id == i) js ≤ 1
      → j'.id ≡ i
      → p j' ≡ false
      → All (IsListed (i ∷ is)) js
      → All (IsListed is) (put j' js)
  unfolding put
  put-IsListed i is [] j' once named ended h = (ground (arith, ended), tt)
  put-IsListed i is (k ∷ ks) j' once named ended h = elim (Bool-cases (k.id == j'.id)) [
    | inl same ↦ subst (All (IsListed is)) (sym (if_true (k.id == j'.id) _ _ same)) (
      ground (arith, ended),
      unlist i is ks
          (ground (arith, once, same, named, string_beq_iff k.id j'.id, string_beq_iff k.id i)) h.1,
    )
    | inr other ↦ subst (All (IsListed is)) (sym (if_false (k.id == j'.id) _ _ other)) (
      ground (arith, h.0, other, named, string_beq_iff k.id j'.id, string_beq_iff i k.id),
      put-IsListed i is ks j' (ground (arith, once)) named ended h.1,
    )
  ]

  pub list_more :
      (i : String) (is : List String) (js : List Job)
      → All (IsListed is) js
      → All (IsListed (i ∷ is)) js
  list_more i is [] h = tt
  list_more i is (j ∷ js) h = (ground (arith, h.0), list_more i is js h.1)

  pub filter-IsListed : (js : List Job) → All (IsListed (ids (filter p js))) js
  filter-IsListed [] = tt
  filter-IsListed (j ∷ js) =
      let rest = filter p js in
      elim (Bool-cases (p j)) [
        | inl open_j ↦
            subst (λ l. All (IsListed (ids l)) (j ∷ js))
              (sym (if_true (p j) (j ∷ rest) rest open_j))
              (
                ground (arith, string_beq_iff j.id j.id),
                list_more j.id (ids rest) js (filter-IsListed js),
              )
        | inr ended ↦
            subst (λ l. All (IsListed (ids l)) (j ∷ js))
              (sym (if_false (p j) (j ∷ rest) rest ended))
              (ground (arith, ended), filter-IsListed js)
      ]

  pub count-unlisted : (js : List Job) → All (IsListed []) js → count p js ≡ 0
  count-unlisted [] h = refl
  count-unlisted (j ∷ js) h = ground (arith, h.0, count-unlisted js h.1)

  pub unlist_settled :
      (i : String) (is : List String) (js : List Job) (j : Job)
      → count (λ k. k.id == i) js ≤ 1
      → find i js ≡ some j
      → p j ≡ false
      → All (IsListed (i ∷ is)) js
      → All (IsListed is) js
  unfolding find
  unlist_settled i is [] j once found settled h = tt
  unlist_settled i is (k ∷ ks) j once found settled h = elim (Bool-cases (k.id == i)) [
    | inl same ↦
        let is_j : k ≡ j = ground arith in
        (ground (arith, ap p is_j, settled), unlist i is ks (ground (arith, once, same)) h.1)
    | inr other ↦ (
      ground (arith, h.0, other, string_beq_iff i k.id, string_beq_iff k.id i),
      unlist_settled i is ks j (ground (arith, once)) (ground (arith, found)) settled h.1,
    )
  ]

  pub ids-IsListed : (js : List Job) → All (IsListed (ids js)) js
  ids-IsListed [] = tt
  ids-IsListed (j ∷ js) =
      (ground (arith, string_beq_iff j.id j.id), list_more j.id (ids js) js (ids-IsListed js))
