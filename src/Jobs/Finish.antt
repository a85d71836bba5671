-- ===== src/Jobs/Finish.antt =====
-- How a job ends and a child leaves the pool: `_finish`, `_abort`, `_start_failed`, `_retire`.
pub mod Trace
use php_python_ai_bridge.Base.{
  ℕ, ◌+◌, ◌-◌, Bool, true, false, not, ◌&&◌, ◌||◌, List, [], ◌∷◌, ◌++◌, Option, none, some, String,
  ◌==◌, nat_eq, string_eq, if◌then◌else◌, map, is_some, lookup, discard, remove, length, drop,
}
use php_python_ai_bridge.Json.{Value}
use php_python_ai_bridge.Metrics.{Histogram, observe}
use php_python_ai_bridge.Jobs.Types.{
  Job, Env, Store, Book, Worker, Status, failed, is_terminal, is_queued, status_eq, ErrorCode,
  worker_start_failed, worker_crashed,
}
use php_python_ai_bridge.Jobs.Table.{find, put}
use php_python_ai_bridge.Jobs.Db.{write}

-- `BACKOFF_SECONDS`.
abbrev backoff : ℕ
backoff = 1000

-- `_ended[owner, task, status] += 1`.
unfoldable pub count_end :
    String → String → Status → (String → String → Status → ℕ) → String → String → Status → ℕ
count_end o t st f o' t' st' =
    if o == o' && (t == t' && st == st') then f o' t' st' + 1 else f o' t' st'

pub observe_at : String → ℕ → (String → Histogram) → String → Histogram
observe_at t ms f t' = if t == t' then observe (f t') ms else f t'

-- `deque(maxlen=100).append`.
pub remember : ℕ → List ℕ → List ℕ
remember ms l = drop (length l + 1 - 100) (l ++ (ms ∷ []))

remember_run : Env → Option ℕ → List ℕ → List ℕ
unfolding remember
remember_run e none l = l
remember_run e (some started) l = remember (e.now - started) l

-- The fields that `_finish` gives the job.
unfoldable pub end_job : Env → Job → Status → Option Value → Option ErrorCode → Job
end_job e j st result code = record j {
  status = st;
  result = result;
  error = code;
  input = none;
  finished = some e.now;
}

unfoldable pub end_book : Env → Job → Status → Option Value → Option ErrorCode → Book → Book
unfolding end_job count_end observe_at remember_run
end_book e j st result code b = record b {
  jobs = put (end_job e j st result code) b.jobs;
  ended = count_end j.owner j.task st b.ended;
  durations = observe_at j.task (e.now - j.submitted_at) b.durations;
  recent = remember_run e j.started_at b.recent;
}

-- `_finish(job, ...)`, its log line left out.
unfoldable pub finish_job : Env → Job → Status → Option Value → Option ErrorCode → Store → Store
finish_job e j st result code s = record s {
  book = end_book e j st result code s.book;
  db = write e (end_job e j st result code) s.db;
}

-- The same for the job that an id refers to.
unfoldable pub finish : Env → String → Status → Option Value → Option ErrorCode → Store → Store
unfolding finish_job
finish e i st result code s = elim (find i s.jobs) [
  | none ↦ s
  | some j ↦ finish_job e j st result code s
]

-- A loop over jobs, by the ids that it met at its start.
unfoldable pub for_each : List String → (String → Store → Store) → Store → Store
for_each [] f s = s
for_each (i ∷ is) f s = for_each is f (f i s)

abbrev pub ids : List Job → List String
ids js = map (λ j. j.id) js

pub fail_queued_job : Env → Job → Store → Store
fail_queued_job e j s =
    if is_queued j.status && not (is_some (lookup j.id s.active))
    then finish_job e j failed none (some worker_start_failed) s
    else s

pub fail_queued : Env → String → Store → Store
fail_queued e i s = elim (find i s.jobs) [ none ↦ s | some j ↦ fail_queued_job e j s ]

abbrev pub is_empty : List ℕ → Bool
is_empty [] = true
is_empty (x ∷ xs) = false

-- `_start_failed()`.
pub start_failed : Env → Store → Store
start_failed e s =
    let later = record s { backoff_until = e.now + backoff } in
    if is_empty s.pool && not s.draining then for_each (ids s.jobs) (fail_queued e) later else later

unfoldable pub set_worker : ℕ → Worker → (ℕ → Worker) → ℕ → Worker
set_worker w x h v = if v == w then x else h v

-- What `_retire` does to the child: `gently`, it is asked to exit; otherwise it is terminated. A
-- send in flight owns the pipe, so the pipe stays open then.
retired_worker : Env → Bool → Worker → Worker
retired_worker e gently x = record x {
  job_id = none;
  told_to_stop = gently || x.told_to_stop;
  closed = not x.sending || x.closed;
  terminated = not gently && x.alive || x.terminated;
  retired_at = some e.now;
}

discard_active : Option String → List (String × ℕ) → List (String × ℕ)
discard_active none active = active
discard_active (some i) active = discard i active

-- The job of a retired child: back to the queue, once, if the child never had it.
unfoldable pub requeue_job : Env → Job → Store → Store
requeue_job e j s =
    if is_terminal j.status
    then s
    else if is_queued j.status && not j.retried
    then record s { book = record (s.book) { jobs = put (record j { retried = true }) s.jobs } }
    else finish_job e j failed none (some worker_crashed) s

unfoldable pub requeue : Env → Option String → Store → Store
requeue e none s = s
requeue e (some i) s = elim (find i s.jobs) [ none ↦ s | some j ↦ requeue_job e j s ]

-- The bookkeeping of the pool in `_retire`, before it turns to jobs.
unfoldable pub take_out : Env → ℕ → Bool → Store → Store
unfolding retired_worker set_worker discard_active
take_out e w stop s =
    let x = s.workers w in
    record s {
      active = discard_active x.job_id s.active;
      retiring = s.retiring ++ (w ∷ []);
      workers = set_worker w (retired_worker e (stop && not x.sending) x) s.workers;
    }

-- A child that was not ready yet holds back the next start.
unfoldable pub hold_back : Env → Bool → Bool → Store → Store
hold_back e ready died s =
    if ready
    then s
    else if died
    then start_failed e s
    else record s { backoff_until = e.now + backoff }

unfoldable pub retire_now : Env → ℕ → Bool → Bool → Store → Store
retire_now e w stop died s =
    let x = s.workers w in requeue e x.job_id (hold_back e x.ready died (take_out e w stop s))

-- `_retire(worker, stop, died)`.
unfoldable pub retire : Env → ℕ → Bool → Bool → Store → Store
retire e w stop died s =
    let out = record s { pool = remove w s.pool } in
    elim (s.workers w).retired_at [ some _ ↦ out | none ↦ retire_now e w stop died out ]

-- The child of an aborted job: it no longer runs the job, and is retired.
unfoldable pub release_child : Env → String → Store → Store
unfolding set_worker
release_child e i s = elim (lookup i s.active) [
  | none ↦ s
  | some w ↦ retire e w false false (record s {
    active = discard i s.active;
    workers = set_worker w (record (s.workers w) { job_id = none }) s.workers;
  })
]

-- `_abort(job, status, code)`.
unfoldable pub abort : Env → String → Status → Option ErrorCode → Store → Store
abort e i st code s = finish e i st none code (release_child e i s)
