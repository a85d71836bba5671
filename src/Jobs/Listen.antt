-- ===== src/Jobs/Listen.antt =====
-- What children say: `_drain_message` and `_drain`.
pub mod Trace
use php_python_ai_bridge.Base.{
  ℕ, ◌-◌, Bool, true, false, ◌&&◌, List, [], ◌∷◌, Option, none, some, String, ◌==◌, string_eq,
  nat_eq, if◌then◌else◌, leb, discard,
}
use php_python_ai_bridge.Json.{Value}
use php_python_ai_bridge.Jobs.Types.{
  Job, Env, Store, Worker, Message, ready, loaded, broken, started, progressed, finished_with,
  errored, Progress, running, succeeded, failed, Status, is_terminal, ErrorCode, task_failed,
}
use php_python_ai_bridge.Jobs.Table.{find, put}
use php_python_ai_bridge.Jobs.Finish.{set_worker, retire, finish_job, finish, observe_at}

unfoldable pub on_worker : ℕ → (Worker → Worker) → Store → Store
unfolding set_worker
on_worker w f s = record s { workers = set_worker w (f (s.workers w)) s.workers }

-- The job that a message is about, if the child still runs it and it has not ended.
pub current : ℕ → String → Store → Option Job
current w i s = elim (s.workers w).job_id [
  | none ↦ none
  | some k ↦
      if i == k
      then elim (find i s.jobs) [
        | none ↦ none
        | some j ↦ if is_terminal j.status then none else some j
      ]
      else none
]

-- `started`: the job runs, and its wait is measured.
pub start_job : Env → Job → Store → Store
start_job e j s = record s {
  book = record (s.book) {
    jobs = put (record j { status = running; started_at = some e.now }) s.jobs;
    waits = observe_at j.task (e.now - j.submitted_at) s.waits;
  };
}

pub note_progress : Job → Progress → Store → Store
note_progress j p s = record s {
  book = record (s.book) { jobs = put (record j { progress = some p }) s.jobs };
}

-- The child has its job's outcome: it is idle, or has served long enough and is asked to exit.
pub end_run : Env → ℕ → Job → Status → Option Value → Option ErrorCode → Store → Store
end_run e w j st r code s =
    let freed =
      on_worker w (λ x. record x { job_id = none }) (record s { active = discard j.id s.active }) in
    let ended = finish_job e j st r code freed in
    if leb s.max_jobs (s.workers w).served then retire e w true false ended else ended

-- `_drain_message(worker, message)`, for a message that is well formed: the new store, and whether
-- it ended the job that the child was running.
pub drain_message : Env → ℕ → Message → Store → Store × Bool
drain_message e w ready s = (on_worker w (λ x. record x { ready = true }) s, false)
drain_message e w loaded s = (on_worker w (λ x. record x { loaded = true }) s, false)
drain_message e w broken s = (retire e w false true s, true)
drain_message e w (started i) s = elim (current w i s) [
  | none ↦ (s, false)
  | some j ↦ (start_job e j s, false)
]
drain_message e w (progressed i p) s = elim (current w i s) [
  | none ↦ (s, false)
  | some j ↦ (note_progress j p s, false)
]
drain_message e w (finished_with i v) s = elim (current w i s) [
  | none ↦ (s, false)
  | some j ↦ (end_run e w j succeeded (some v) none s, true)
]
drain_message e w (errored i) s = elim (current w i s) [
  | none ↦ (s, false)
  | some j ↦ (end_run e w j failed none (some task_failed) s, true)
]

-- `_drain(worker)`: what has arrived, up to the end of the job; the rest stays in the pipe. A
-- broken pipe retires the child as one that died.
pub drain_inbox : Env → ℕ → List Message → Store → Store
drain_inbox e w [] s = on_worker w (λ x. record x { inbox = [] }) s
drain_inbox e w (m ∷ ms) s =
    let (t, done) = drain_message e w m s in
    let rest = drain_inbox e w ms t in
    if done then on_worker w (λ x. record x { inbox = ms }) t else rest

pub drain_child : Env → ℕ → Store → Store
drain_child e w s = drain_inbox e w (s.workers w).inbox s
