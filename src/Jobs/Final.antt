-- ===== src/Jobs/Final.antt =====
-- Jobs that have ended, in the steps of the table: `cancel`, `_coordinate` and `drain`.
use php_python_ai_bridge.Base.{
  ◌≡◌, ◌≤◌, refl, sym, true, false, inl, inr, ◌⊎◌, List, [], ◌∷◌, ◌++◌, none, some, String, arith,
  ◌==◌, string_eq, string_beq_iff, ap, ◌∙◌, count, count-middle,
}
use php_python_ai_bridge.Jobs.Types.{Job, Book, Store, Env, unfinished}
use php_python_ai_bridge.Jobs.Table.{find, find-id}
use php_python_ai_bridge.Jobs.Table.Laws.{find-middle, find-replace}
use php_python_ai_bridge.Jobs.Steps.{Steps, Step, idle, edit, close, forget, admit, here, next}
use php_python_ai_bridge.Jobs.Invariants.{IsSound, Steps-IsSound}
use php_python_ai_bridge.Jobs.Service.{cancel, coordinate, drain}
use php_python_ai_bridge.Jobs.Service.Trace.{cancel-Steps, coordinate-Steps, drain-Steps}

-- The job is as it was, or has been forgotten.
abbrev pub Kept : String → Job → Book → Type 0
Kept i j b = (find i b.jobs ≡ some j) ⊎ (find i b.jobs ≡ none)

replace-absent :
    (i : String) (xs : List Job) (j j' : Job) (ys : List Job)
    → j'.id ≡ j.id
    → find i (xs ++ (j ∷ ys)) ≡ none
    → find i (xs ++ (j' ∷ ys)) ≡ none
unfolding find
replace-absent i [] j j' ys same h = ground (arith, string_beq_iff j.id i, string_beq_iff j'.id i)
replace-absent i (x ∷ xs) j j' ys same h = ground (arith, replace-absent i xs j j' ys same)

remove-absent :
    (i : String) (xs : List Job) (j : Job) (ys : List Job)
    → find i (xs ++ (j ∷ ys)) ≡ none
    → find i (xs ++ ys) ≡ none
unfolding find
remove-absent i [] j ys h = ground arith
remove-absent i (x ∷ xs) j ys h = ground (arith, remove-absent i xs j ys)

none_of_count : (i : String) (js : List Job) → count (λ k. k.id == i) js ≡ 0 → find i js ≡ none
unfolding find
none_of_count i [] h = refl
none_of_count i (k ∷ ks) h = ground (arith, none_of_count i ks)

replace-Kept :
    (i : String) (m : Job) (b c : Book) (xs : List Job) (j j' : Job) (ys : List Job)
    → unfinished m ≡ false
    → b.jobs ≡ xs ++ (j ∷ ys)
    → c.jobs ≡ xs ++ (j' ∷ ys)
    → j'.id ≡ j.id
    → unfinished j ≡ true
    → Kept i m b
    → Kept i m c
replace-Kept i m b c xs j j' ys ended p q same u (inl found) =
    elim (find-replace i xs j j' ys m same (ap (find i) (sym p) ∙ found)) [
      | inl (is_j, _) ↦ absurd (ground (arith, ap (λ (x : Job). unfinished x) is_j))
      | inr still ↦ inl (ap (find i) q ∙ still)
    ]
replace-Kept i m b c xs j j' ys ended p q same u (inr absent) =
    inr (ap (find i) q ∙ replace-absent i xs j j' ys same (ap (find i) (sym p) ∙ absent))

forget-Kept :
    (i : String) (m : Job) (b c : Book) (xs : List Job) (j : Job) (ys : List Job)
    → count (λ k. k.id == i) b.jobs ≤ 1
    → b.jobs ≡ xs ++ (j ∷ ys)
    → c.jobs ≡ xs ++ ys
    → Kept i m b
    → Kept i m c
forget-Kept i m b c xs j ys once p q (inr absent) =
    inr (ap (find i) q ∙ remove-absent i xs j ys (ap (find i) (sym p) ∙ absent))
forget-Kept i m b c xs j ys once p q (inl found) =
    let at : find i (xs ++ (j ∷ ys)) ≡ some m = ap (find i) (sym p) ∙ found in
    elim (find-middle i xs j ys m at) [
      | inr still ↦ inl (ap (find i) q ∙ still)
      | inl is_j ↦
          let named : j.id ≡ i = ap (λ (x : Job). x.id) (sym is_j) ∙ find-id i _ m at in
          inr (
            ap (find i) q
            ∙ none_of_count i (xs ++ ys) (
                ground (
                  arith,
                  once,
                  (string_beq_iff j.id i).1 named,
                  ap (count (λ k. k.id == i)) p,
                  count-middle (λ k. k.id == i) xs j ys,
                )))
    ]

Step-Kept :
    {b c : Book} (i : String) (m : Job)
    → Step false b c
    → IsSound b
    → unfinished m ≡ false
    → Kept i m b
    → Kept i m c
Step-Kept {b} {c} i m (idle p q) s ended h = rw p h
Step-Kept {b} {c} i m (edit xs j j' ys p q r u v w x) s ended h =
    replace-Kept i m b c xs j j' ys ended p q r.same_id u h
Step-Kept {b} {c} i m (close xs j j' ys p q r u v w x y z n) s ended h =
    replace-Kept i m b c xs j j' ys ended p q r.same_id u h
Step-Kept {b} {c} i m (forget xs j ys p q r x y z n) s ended h =
    forget-Kept i m b c xs j ys (s.distinct i) p q h
Step-Kept i m (admit j g p q u v x y z n k) s ended h = cc

Steps-Kept :
    {b c : Book} (i : String) (m : Job)
    → Steps false b c
    → IsSound b
    → unfinished m ≡ false
    → Kept i m b
    → Kept i m c
Steps-Kept i m here s ended h = h
Steps-Kept i m (next p q) s ended h =
    Step-Kept i m q (Steps-IsSound p s) ended (Steps-Kept i m p s ended h)

-- In a sound store, a cancellation, a round of the coordinator or a drain leaves a job that has
-- ended exactly as it was, or has forgotten it.
pub ended_stays :
    (e : Env) (i o : String) (s : Store) (j : Job)
    → IsSound s.book
    → find i s.jobs ≡ some j
    → unfinished j ≡ false
    → Kept i j (cancel e i o s).1.book
      × Kept i j (coordinate e s).1.book
      × Kept i j (drain e s).book
ended_stays e i o s j sound found ended = (
  Steps-Kept i j (cancel-Steps e i o s) sound ended (inl found),
  Steps-Kept i j (coordinate-Steps e s) sound ended (inl found),
  Steps-Kept i j (drain-Steps e s) sound ended (inl found),
)
