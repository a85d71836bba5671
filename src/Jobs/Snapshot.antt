-- ===== src/Jobs/Snapshot.antt =====
-- `snapshot`: the aggregates for the metrics page.
use php_python_ai_bridge.Base.{
  ℕ, ◌+◌, ◌≡◌, ◌≤◌, Bool, List, [], ◌∷◌, String, arith, count, length, string_eq,
}
use php_python_ai_bridge.Metrics.{Histogram}
use php_python_ai_bridge.Jobs.Types.{
  Job, Store, Status, running, is_terminal, is_queued, status_beq,
}
use php_python_ai_bridge.Jobs.Request.{task_names}

pub record Snapshot : Type 0 where
  pub backend : String
  pub concurrency : ℕ
  pub capacity : ℕ
  pub result_capacity : ℕ
  results_retained : ℕ
  tasks : List String
  pub owners : List String
  pub jobs : String → String → Status → ℕ
  pub submitted : String → String → ℕ
  pub rejected : String → ℕ
  queued_jobs : ℕ
  running_jobs : ℕ
  pool_size : ℕ
  pool_ready : ℕ
  duration : String → Histogram
  pub queue : String → Histogram

-- `snapshot()`.
pub snapshot : Store → Snapshot
snapshot s = record {
  backend = s.backend;
  concurrency = s.concurrency;
  capacity = s.capacity;
  result_capacity = s.result_capacity;
  results_retained = count (λ j. is_terminal j.status) s.jobs;
  tasks = task_names s.test_tasks;
  owners = s.owners;
  jobs = s.ended;
  submitted = s.submitted;
  rejected = s.rejected;
  queued_jobs = count (λ j. is_queued j.status) s.jobs;
  running_jobs = count (λ j. status_beq j.status running) s.jobs;
  pool_size = length s.pool;
  pool_ready = count (λ w. (s.workers w).ready) s.pool;
  duration = s.durations;
  queue = s.waits;
}

count_statuses :
    (js : List Job)
    → count (λ j. is_queued j.status) js
        + count (λ j. status_beq j.status running) js
        + count (λ j. is_terminal j.status) js
      ≡ length js
count_statuses [] = omega arith
count_statuses (j ∷ js) = ground (arith, count_statuses js)

count-le-pool : (p : ℕ → Bool) (ws : List ℕ) → count p ws ≤ length ws
count-le-pool p [] = omega arith
count-le-pool p (w ∷ ws) = ground (arith, count-le-pool p ws)

-- The gauges of a snapshot account for every job of the table: each is queued, running or retained for
-- its result; and no more children are ready than there are.
snapshot-total :
    (s : Store)
    → ((snapshot s).queued_jobs + (snapshot s).running_jobs + (snapshot s).results_retained
        ≡ length s.jobs)
      × ((snapshot s).pool_ready ≤ (snapshot s).pool_size)
unfolding snapshot
snapshot-total s = (count_statuses s.jobs, count-le-pool (λ w. (s.workers w).ready) s.pool)
