-- ===== src/Jobs/Open/Sound.antt =====
-- The job table at a start, as the first of a history.
use php_python_ai_bridge.Base.{
  ℕ, ◌≡◌, ◌≤◌, refl, sym, true, not, inl, inr, List, [], ◌∷◌, String, arith, Option-cases, ap, ◌∙◌,
  subst, All, count, is_some, count-append, ◌==◌, string_eq, string_beq_iff, if_ind,
}
use php_python_ai_bridge.Jobs.Types.{Job, Row, Worker, Env, Settings, is_terminal}
use php_python_ai_bridge.Jobs.Table.{find, put}
use php_python_ai_bridge.Jobs.Table.Laws.{put-All}
use php_python_ai_bridge.Jobs.Db.{recover, restore, is_stale}
use php_python_ai_bridge.Jobs.Submit.Trace.{put_new}
use php_python_ai_bridge.Jobs.Invariants.{IsSound, Dated, open_of, count-find}
use php_python_ai_bridge.Jobs.Close.Listed.{put-count}
use php_python_ai_bridge.Jobs.Open.{restore_jobs, open_book, open_store}
use php_python_ai_bridge.Jobs.Open.Laws.{reopened, reopened-terminal}

-- A job that a start makes: it has ended, and when is known.
abbrev IsOver : Job → Type 0
IsOver j = (is_some j.finished ≡ true) × (is_terminal j.status ≡ true)

abbrev IsTerminal : Row → Type 0
IsTerminal r = is_terminal r.status ≡ true

recover-IsTerminal :
    (wall retention : ℕ) (rs : List Row) → All IsTerminal (recover wall retention rs)
unfolding recover
recover-IsTerminal wall retention [] = tt
recover-IsTerminal wall retention (r ∷ rs) =
    if_ind (All IsTerminal) (not (is_stale wall retention (reopened wall r)))
      (λ _. (reopened-terminal wall r, recover-IsTerminal wall retention rs))
      (λ _. recover-IsTerminal wall retention rs)

put-once :
    (j : Job) (js : List Job) (x : String)
    → count (λ k. k.id == x) js ≤ 1
    → count (λ k. k.id == x) (put j js) ≤ 1
put-once j js x once = elim (Option-cases (find j.id js)) [
  | inr (k, found) ↦ subst (λ n. n ≤ 1) (sym (put-count x j js k found)) once
  | inl absent ↦ ground (
    arith,
    once,
    ap (count (λ k. k.id == x)) (put_new j js absent),
    count-append (λ k. k.id == x) js (j ∷ []),
    count-find j.id js absent,
    string_beq_iff j.id x,
    ap (λ i. count (λ k. k.id == i) js),
  )
]

module _ (now wall : ℕ) where
  restore_jobs-IsOver :
      (rs : List Row) (js : List Job)
      → All IsTerminal rs
      → All IsOver js
      → All IsOver (restore_jobs now wall rs js)
  unfolding restore_jobs restore
  restore_jobs-IsOver [] js t h = h
  restore_jobs-IsOver (r ∷ rs) js t h =
      restore_jobs-IsOver rs _ t.1 (put-All IsOver (restore now wall r) js (refl, t.0) h)

  restore_jobs-once :
      (rs : List Row) (js : List Job)
      → ((x : String) → count (λ k. k.id == x) js ≤ 1)
      → (x : String) → count (λ k. k.id == x) (restore_jobs now wall rs js) ≤ 1
  unfolding restore_jobs
  restore_jobs-once [] js h x = h x
  restore_jobs-once (r ∷ rs) js h x =
      restore_jobs-once rs _ (λ y. put-once (restore now wall r) js y (h y)) x

over-Dated : (js : List Job) → All IsOver js → All Dated js
over-Dated [] h = tt
over-Dated (j ∷ js) h = (h.0.0 ∙ sym h.0.1, over-Dated js h.1)

over-open_of : (o t : String) (js : List Job) → All IsOver js → open_of o t js ≡ 0
over-open_of o t [] h = refl
over-open_of o t (j ∷ js) h = ground (arith, h.0.1, over-open_of o t js h.1)

-- Whatever rows an earlier run left, the store of a start is sound: a job has an end time exactly
-- when its status is terminal, no id stands twice, and the counts balance.
pub open_store-IsSound :
    (e : Env) (settings : Settings) (heap : ℕ → Worker) (rows : List Row)
    → IsSound (open_store e settings heap rows).book
unfolding open_store open_book
open_store-IsSound e settings heap rows =
    let over =
      restore_jobs-IsOver e.now e.wall (recover e.wall settings.retention rows) []
        (recover-IsTerminal e.wall settings.retention rows) tt in
    record {
      dated = over-Dated _ over;
      distinct = restore_jobs-once e.now e.wall _ [] (λ x. omega arith);
      balanced = λ o t. omega (
        arith,
        over-open_of o t (restore_jobs e.now e.wall (recover e.wall settings.retention rows) [])
            over,
      );
    }
