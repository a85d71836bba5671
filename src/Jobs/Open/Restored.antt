-- ===== src/Jobs/Open/Restored.antt =====
-- What a job is after a start, told from the row that an earlier run left.
use php_python_ai_bridge.Base.{
  ℕ, ◌+◌, ◌-◌, ◌≡◌, ◌≤◌, ◌<◌, ◌⊎◌, refl, sym, subst, true, false, inl, inr, Option, none, some,
  String, List, arith, Bool-cases, Option-cases, if_ind, count, ◌==◌, string_eq,
}
use php_python_ai_bridge.Jobs.Types.{
  Job, Row, Worker, Env, Settings, is_terminal, failed, service_restarted,
}
use php_python_ai_bridge.Jobs.Table.{find}
use php_python_ai_bridge.Jobs.Db.{adopt, fail_unfinished, is_stale, restore}
use php_python_ai_bridge.Jobs.Open.{open_store}
use php_python_ai_bridge.Jobs.Open.Laws.{reopened, answer_of, row_of, open_store-find}

module _ (now wall retention : ℕ) where
  -- When the job of a row finished: as the row says, or at this start where it never completed.
  pub data Finished (r : Row) : ℕ → Type 0 where
    completed : (f : ℕ) → is_terminal r.status ≡ true → r.finished_at ≡ some f → Finished r f
    interrupted : is_terminal r.status ≡ false → Finished r wall

  -- A completed job without a time, or one whose retention has passed.
  abbrev pub IsOver : Row → Type 0
  IsOver r =
      ((is_terminal r.status ≡ true) × (r.finished_at ≡ none))
      ⊎ ((f : ℕ) × Finished r f × (f + retention ≤ wall))

  -- A completed job is as the row has it; one that never completed has failed.
  abbrev HasOutcome : Row → Job → Type 0
  HasOutcome r j =
      ((is_terminal r.status ≡ true)
        × (j.status ≡ r.status)
        × (j.result ≡ r.result)
        × (j.error ≡ r.error))
      ⊎ ((is_terminal r.status ≡ false)
          × (j.status ≡ failed)
          × (j.result ≡ none)
          × (j.error ≡ some service_restarted))

  abbrev owner_name : Option String → String
  owner_name none = "default"
  owner_name (some o) = o

  pub record IsRestored (r : Row) (j : Job) : Type 0 where
    id_same : j.id ≡ r.id
    task_same : j.task ≡ r.task
    key_same : j.key ≡ r.key
    timeout_same : j.timeout_ms ≡ r.timeout_ms
    progress_same : j.progress ≡ r.progress
    owner_same : j.owner ≡ owner_name r.owner
    pub outcome : HasOutcome r j
    pub end : ℕ
    pub at : Finished r end
    pub fresh : wall < end + retention
    carried : j.finished ≡ some (now - (wall - end))

  abbrev pub IsStart : Option Row → Option Job → Type 0
  IsStart none o = o ≡ none
  IsStart (some r) none = IsOver r
  IsStart (some r) (some j) = IsRestored r j

  over : (r : Row) → is_stale wall retention (reopened wall r) ≡ true → IsOver r
  unfolding is_stale fail_unfinished adopt
  over r h = elim (Bool-cases (is_terminal r.status)) [
    | inl done ↦ elim (Option-cases r.finished_at) [
      | inl untimed ↦ inl (done, untimed)
      | inr (f, timed) ↦
          inr (f, completed f done timed, ground (arith, h, done, timed, Option-cases r.owner))
    ]
    | inr unended ↦
        inr (wall, interrupted unended, ground (arith, h, unended, Option-cases r.owner))
  ]

  finished :
      (r : Row)
      → is_stale wall retention (reopened wall r) ≡ false
      → (f : ℕ) × Finished r f
        × (wall < f + retention)
        × ((restore now wall (reopened wall r)).finished ≡ some (now - (wall - f)))
  unfolding is_stale fail_unfinished adopt restore
  finished r h = elim (Bool-cases (is_terminal r.status)) [
    | inl done ↦ elim (Option-cases r.finished_at) [
      | inl untimed ↦ absurd (ground (arith, h, done, untimed, Option-cases r.owner))
      | inr (f, timed) ↦ (
        f,
        completed f done timed,
        ground (arith, h, done, timed, Option-cases r.owner),
        ground (arith, done, timed, Option-cases r.owner),
      )
    ]
    | inr unended ↦ (
      wall,
      interrupted unended,
      ground (arith, h, unended, Option-cases r.owner),
      ground (arith, unended, Option-cases r.owner),
    )
  ]

  outcome_lem : (r : Row) → HasOutcome r (restore now wall (reopened wall r))
  unfolding fail_unfinished adopt restore
  outcome_lem r = elim (Bool-cases (is_terminal r.status)) [
    | inl done ↦ inl (ground (arith, done, Option-cases r.owner))
    | inr unended ↦ inr (ground (arith, unended, Option-cases r.owner))
  ]

  restored :
      (r : Row)
      → is_stale wall retention (reopened wall r) ≡ false
      → IsRestored r (restore now wall (reopened wall r))
  unfolding fail_unfinished adopt restore
  restored r h =
      let (f, at, fresh, carried) = finished r h in
      record {
        id_same = ground (arith, Option-cases r.owner);
        task_same = ground (arith, Option-cases r.owner);
        key_same = ground (arith, Option-cases r.owner);
        timeout_same = ground (arith, Option-cases r.owner);
        progress_same = ground (arith, Option-cases r.owner);
        owner_same = ground (arith, Option-cases r.owner);
        outcome = outcome_lem r;
        end = f;
        at = at;
        fresh = fresh;
        carried = carried;
      }

  answer_of-IsStart : (o : Option Row) → IsStart o (answer_of now wall retention o)
  answer_of-IsStart none = refl
  answer_of-IsStart (some r) =
      if_ind (IsStart (some r)) (is_stale wall retention (reopened wall r)) (over r) (restored r)

-- Where an id stands at most once in the table, the answer of a start for the id is told by its row alone. Without a
-- row there is none. A row gives none exactly where the job was completed without a time of it, or its
-- retention, counted from the row's finish or from this start where it never completed, has passed. Else the
-- job has the row's id, task, owner, key, timeout and progress; its outcome is the row's, or the failure
-- `service_restarted` without a result where it never completed; and the age of its finish is carried over
-- to this process's clock.
pub open_store-IsStart :
    (e : Env) (settings : Settings) (heap : ℕ → Worker) (rows : List Row) (i : String)
    → count (λ r. r.id == i) rows ≤ 1
    → IsStart e.now e.wall settings.retention
        (row_of i rows)
        (find i (open_store e settings heap rows).jobs)
open_store-IsStart e settings heap rows i once =
    subst (IsStart e.now e.wall settings.retention (row_of i rows))
      (sym (open_store-find e settings heap rows i once))
      (answer_of-IsStart e.now e.wall settings.retention (row_of i rows))
