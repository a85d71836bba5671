-- ===== src/Jobs/Listen/Trace.antt =====
-- What children say, seen as steps of the job table.
use php_python_ai_bridge.Base.{
  ℕ, ◌≡◌, refl, true, false, inl, inr, List, [], ◌∷◌, Option, none, some, String, arith,
  Option-cases, if_ind, string_eq, string_beq_iff, leb,
}
use php_python_ai_bridge.Json.{Value}
use php_python_ai_bridge.Jobs.Types.{
  Job, Env, Store, Status, Message, ready, loaded, broken, started, progressed, finished_with,
  errored, succeeded, failed, running, unfinished, is_terminal, ErrorCode, task_failed, Progress,
}
use php_python_ai_bridge.Jobs.Table.{find, put-split}
use php_python_ai_bridge.Jobs.Steps.{edit, here, Steps-trans, Steps-one, same_job}
use php_python_ai_bridge.Jobs.Finish.Trace.{Traced, retire-Steps, finish_job-Steps}
use php_python_ai_bridge.Jobs.Listen.{
  on_worker, current, start_job, note_progress, end_run, drain_message, drain_inbox, drain_child,
}

-- A message is applied only to the unfinished job that the child runs.
current_lem :
    (w : ℕ) (i : String) (s : Store) (j : Job)
    → current w i s ≡ some j
    → (find i s.jobs ≡ some j) × (unfinished j ≡ true) × ((s.workers w).job_id ≡ some i)
unfolding current
current_lem w i s j h = elim (Option-cases (s.workers w).job_id) [
  | inl free ↦ absurd (ground arith)
  | inr (k, runs) ↦ ground (arith, string_beq_iff i k)
]

module _ (e : Env) where
  start_job-Steps :
      (i : String) (j : Job) (s : Store)
      → find i s.jobs ≡ some j
      → unfinished j ≡ true
      → Traced s (start_job e j s)
  unfolding start_job
  start_job-Steps i j s found open_j =
      let j' : Job = record j { status = running; started_at = some e.now } in
      let (xs, ys, p, q) = put-split i s.jobs found j' refl in
      Steps-one (
        edit xs j j' ys p q (same_job refl refl refl refl) open_j refl refl (record {
          same_ended = refl;
          same_submitted = refl;
          same_settings = refl;
          same_keys = refl;
        }))

  note_progress-Steps :
      (i : String) (j : Job) (p : Progress) (s : Store)
      → find i s.jobs ≡ some j
      → unfinished j ≡ true
      → Traced s (note_progress j p s)
  unfolding note_progress
  note_progress-Steps i j v s found open_j =
      let j' : Job = record j { progress = some v } in
      let (xs, ys, p, q) = put-split i s.jobs found j' refl in
      Steps-one (
        edit xs j j' ys p q (same_job refl refl refl refl) open_j open_j refl (record {
          same_ended = refl;
          same_submitted = refl;
          same_settings = refl;
          same_keys = refl;
        }))

  end_run-Steps :
      (w : ℕ) (i : String) (j : Job) (st : Status) (r : Option Value) (code : Option ErrorCode)
      (s : Store)
      → find i s.jobs ≡ some j
      → unfinished j ≡ true
      → is_terminal st ≡ true
      → Traced s (end_run e w j st r code s)
  unfolding end_run on_worker
  end_run-Steps w i j st r code s found open_j ends =
      let ended = finish_job-Steps e i j st r code _ found open_j ends in
      if_ind (Traced s) (leb s.max_jobs (s.workers w).served)
        (λ _. Steps-trans ended (retire-Steps e w true false _)) (λ _. ended)

  -- One message.
  drain_message-Steps : (w : ℕ) (m : Message) (s : Store) → Traced s (drain_message e w m s).0
  unfolding drain_message on_worker
  drain_message-Steps w ready s = here
  drain_message-Steps w loaded s = here
  drain_message-Steps w broken s = retire-Steps e w false true s
  drain_message-Steps w (started i) s = elim (Option-cases (current w i s)) [
    | inl stray ↦ rw (stray, drain_message) here
    | inr (j, runs) ↦
        let (found, open_j, _) = current_lem w i s j runs in
        rw (runs, drain_message) (start_job-Steps i j s found open_j)
  ]
  drain_message-Steps w (progressed i p) s = elim (Option-cases (current w i s)) [
    | inl stray ↦ rw (stray, drain_message) here
    | inr (j, runs) ↦
        let (found, open_j, _) = current_lem w i s j runs in
        rw (runs, drain_message) (note_progress-Steps i j p s found open_j)
  ]
  drain_message-Steps w (finished_with i v) s = elim (Option-cases (current w i s)) [
    | inl stray ↦ rw (stray, drain_message) here
    | inr (j, runs) ↦
        let (found, open_j, _) = current_lem w i s j runs in
        rw (runs, drain_message) (end_run-Steps w i j succeeded (some v) none s found open_j refl)
  ]
  drain_message-Steps w (errored i) s = elim (Option-cases (current w i s)) [
    | inl stray ↦ rw (stray, drain_message) here
    | inr (j, runs) ↦
        let (found, open_j, _) = current_lem w i s j runs in
        rw (runs, drain_message)
          (end_run-Steps w i j failed none (some task_failed) s found open_j refl)
  ]

  drain_inbox-Steps : (w : ℕ) (ms : List Message) (s : Store) → Traced s (drain_inbox e w ms s)
  unfolding drain_inbox on_worker
  drain_inbox-Steps w [] s = here
  drain_inbox-Steps w (m ∷ ms) s =
      let one = drain_message-Steps w m s in
      if_ind (Traced s) (drain_message e w m s).1 (λ _. one)
        (λ _. Steps-trans one (drain_inbox-Steps w ms (drain_message e w m s).0))

  pub drain_child-Steps : (w : ℕ) (s : Store) → Traced s (drain_child e w s)
  unfolding drain_child
  drain_child-Steps w s = drain_inbox-Steps w (s.workers w).inbox s
