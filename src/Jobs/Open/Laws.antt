-- ===== src/Jobs/Open/Laws.antt =====
-- What a start answers for the rows of an earlier run.
use php_python_ai_bridge.Base.{
  ℕ, ◌≡◌, ◌≤◌, refl, sym, true, false, not, inl, inr, List, [], ◌∷◌, Option, none, some, String,
  arith, Bool-cases, Option-cases, ap, ◌∙◌, count, ◌==◌, string_eq, string_beq_iff, if◌then◌else◌,
  if_true, if_false,
}
use php_python_ai_bridge.Jobs.Types.{Job, Row, Worker, Env, Settings, is_terminal}
use php_python_ai_bridge.Jobs.Table.{find, put}
use php_python_ai_bridge.Jobs.Db.{adopt, fail_unfinished, is_stale, recover, restore}
use php_python_ai_bridge.Jobs.Open.{restore_jobs, open_book, open_store}

find-put :
    (i : String) (j : Job) (js : List Job)
    → find i (put j js) ≡ (if j.id == i then some j else find i js)
unfolding find put
find-put i j [] = ground arith
find-put i j (k ∷ ks) =
    ground (
      arith,
      find-put i j ks,
      string_beq_iff k.id j.id,
      string_beq_iff k.id i,
      string_beq_iff j.id i,
    )

-- The first row with an id.
pub row_of : String → List Row → Option Row
row_of i [] = none
row_of i (r ∷ rs) = if r.id == i then some r else row_of i rs

-- What an opened row says: the same, or that the service was restarted.
abbrev pub reopened : ℕ → Row → Row
reopened wall r = fail_unfinished wall (adopt r)

abbrev pub answer_of : ℕ → ℕ → ℕ → Option Row → Option Job
answer_of now wall retention none = none
answer_of now wall retention (some r) =
    if is_stale wall retention (reopened wall r)
    then none
    else some (restore now wall (reopened wall r))

reopened-id : (wall : ℕ) (r : Row) → (reopened wall r).id ≡ r.id
unfolding fail_unfinished adopt
reopened-id wall r = ground (arith, Option-cases r.owner)

pub reopened-terminal : (wall : ℕ) (r : Row) → is_terminal (reopened wall r).status ≡ true
unfolding fail_unfinished adopt
reopened-terminal wall r = ground (arith, Option-cases r.owner)

module _ (now wall retention : ℕ) where
  abbrev job_of : Row → Job
  job_of r = restore now wall (reopened wall r)

  job_of-id : (r : Row) → (job_of r).id ≡ r.id
  unfolding restore
  job_of-id r = reopened-id wall r

  abbrev look : String → List Row → List Job → Option Job
  look i rs js = find i (restore_jobs now wall (recover wall retention rs) js)

  look_kept :
      (i : String) (r : Row) (rs : List Row) (js : List Job)
      → is_stale wall retention (reopened wall r) ≡ false
      → look i (r ∷ rs) js ≡ look i rs (put (job_of r) js)
  unfolding restore_jobs recover
  look_kept i r rs js kept =
      ap (λ l. find i (restore_jobs now wall l js))
        (if_true (not (is_stale wall retention (reopened wall r))) _ _ (ground (arith, kept)))

  look_dropped :
      (i : String) (r : Row) (rs : List Row) (js : List Job)
      → is_stale wall retention (reopened wall r) ≡ true
      → look i (r ∷ rs) js ≡ look i rs js
  unfolding restore_jobs recover
  look_dropped i r rs js stale =
      ap (λ l. find i (restore_jobs now wall l js))
        (if_false (not (is_stale wall retention (reopened wall r))) _ _ (ground (arith, stale)))

  other_job :
      (i : String) (r : Row) (js : List Job)
      → (r.id == i) ≡ false
      → find i (put (job_of r) js) ≡ find i js
  other_job i r js other =
      find-put i (job_of r) js
      ∙ if_false ((job_of r).id == i) _ _ (ap (λ x. x == i) (job_of-id r) ∙ other)

  no_row :
      (i : String) (rs : List Row) (js : List Job)
      → count (λ r. r.id == i) rs ≡ 0
      → look i rs js ≡ find i js
  unfolding restore_jobs recover
  no_row i [] js absent = refl
  no_row i (r ∷ rs) js absent = elim (Bool-cases (is_stale wall retention (reopened wall r))) [
    | inl stale ↦ look_dropped i r rs js stale ∙ no_row i rs js (ground (arith, absent))
    | inr kept ↦
        look_kept i r rs js kept
        ∙ no_row i rs (put (job_of r) js) (ground (arith, absent))
        ∙ other_job i r js (ground (arith, absent))
  ]

  mine_restored :
      (i : String) (r : Row) (rs : List Row) (js : List Job)
      → count (λ q. q.id == i) rs ≡ 0
      → find i js ≡ none
      → (r.id == i) ≡ true
      → look i (r ∷ rs) js ≡ answer_of now wall retention (some r)
  mine_restored i r rs js rest absent mine =
      elim (Bool-cases (is_stale wall retention (reopened wall r))) [
        | inl stale ↦
            look_dropped i r rs js stale
            ∙ no_row i rs js rest
            ∙ absent
            ∙ sym (if_true (is_stale wall retention (reopened wall r)) _ _ stale)
        | inr kept ↦
            look_kept i r rs js kept
            ∙ no_row i rs (put (job_of r) js) rest
            ∙ find-put i (job_of r) js
            ∙ if_true ((job_of r).id == i) _ _ (ap (λ x. x == i) (job_of-id r) ∙ mine)
            ∙ sym (if_false (is_stale wall retention (reopened wall r)) _ _ kept)
      ]

  restored :
      (i : String) (rs : List Row) (js : List Job)
      → count (λ r. r.id == i) rs ≤ 1
      → find i js ≡ none
      → look i rs js ≡ answer_of now wall retention (row_of i rs)
  unfolding restore_jobs recover row_of
  restored i [] js once absent = absent
  restored i (r ∷ rs) js once absent = elim (Bool-cases (r.id == i)) [
    | inl mine ↦
        let rest : count (λ q. q.id == i) rs ≡ 0 = ground (arith, once, mine) in
        mine_restored i r rs js rest absent mine
        ∙ ap (answer_of now wall retention) (sym (if_true (r.id == i) _ _ mine))
    | inr other ↦
        let fewer : count (λ q. q.id == i) rs ≤ 1 = ground (arith, once) in
        let passed : look i (r ∷ rs) js ≡ answer_of now wall retention (row_of i rs) =
          elim (Bool-cases (is_stale wall retention (reopened wall r))) [
            | inl stale ↦ look_dropped i r rs js stale ∙ restored i rs js fewer absent
            | inr kept ↦
                look_kept i r rs js kept
                ∙ restored i rs (put (job_of r) js) fewer (other_job i r js other ∙ absent)
          ] in
        passed ∙ ap (answer_of now wall retention) (sym (if_false (r.id == i) _ _ other))
  ]

-- Where an id stands at most once in the table, a start knows the id exactly if there is a row for it
-- that its retention does not end: a completed job is as the row has it, and one that never completed
-- has failed with `service_restarted` and finished at the start.
pub open_store-find :
    (e : Env) (settings : Settings) (heap : ℕ → Worker) (rows : List Row) (i : String)
    → count (λ r. r.id == i) rows ≤ 1
    → find i (open_store e settings heap rows).jobs
      ≡ answer_of e.now e.wall settings.retention (row_of i rows)
unfolding open_store open_book find
open_store-find e settings heap rows i once =
    restored e.now e.wall settings.retention i rows [] once refl
