-- ===== src/Jobs/Service.antt =====
-- The critical sections of the store: `submit` (see Submit), `get`, `cancel`, `drain`, one round of
-- `_coordinate`, `_replenish`, `_reap`, `close`, and the reads.
pub mod Trace
use php_python_ai_bridge.Base.{
  ℕ, ◌+◌, ◌-◌, Bool, true, false, not, ◌&&◌, ◌||◌, List, [], ◌∷◌, ◌++◌, Option, none, some, String,
  ◌==◌, string_eq, nat_eq, if◌then◌else◌, is_some, lookup, length, leb, ltb, filter, any, count,
  remove,
}
use php_python_ai_bridge.Jobs.Types.{
  Job, PublicJob, Env, Store, Worker, Row, Status, cancelled, failed, timed_out, unfinished,
  is_terminal, is_queued, ErrorCode, service_restarted, deadline_exceeded,
}
use php_python_ai_bridge.Jobs.Table.{find}
use php_python_ai_bridge.Jobs.Finish.{ids, abort, for_each, retire, start_failed, set_worker}
use php_python_ai_bridge.Jobs.Submit.{public, expire}
use php_python_ai_bridge.Jobs.Dispatch.{Send, dispatch, is_idle}
use php_python_ai_bridge.Jobs.Listen.{drain_child}

-- `_owned(job_id, owner)`.
unfoldable pub owned : String → String → Store → Option Job
owned i o s = elim (find i s.jobs) [ none ↦ none | some j ↦ if j.owner == o then some j else none ]

unfoldable pub answer_owned : Option Job → Option PublicJob
answer_owned none = none
answer_owned (some j) = some (public j)

-- `get(job_id, owner)`.
unfoldable pub get : Env → String → String → Store → Option PublicJob × Store
unfolding answer_owned
get e i o s = let t = expire e s in (answer_owned (owned i o t), t)

-- `cancel(job_id, owner)`.
unfoldable pub cancel_job : Env → Option Job → Store → Store
cancel_job e none s = s
cancel_job e (some j) s = if is_terminal j.status then s else abort e j.id cancelled none s

unfoldable pub cancel : Env → String → String → Store → Option PublicJob × Store
unfolding answer_owned
cancel e i o s =
    let t = expire e s in let u = cancel_job e (owned i o t) t in (answer_owned (owned i o u), u)

-- A loop over the children of the pool, by the list that it met at its start.
unfoldable pub for_workers : List ℕ → (ℕ → Store → Store) → Store → Store
for_workers [] f s = s
for_workers (w ∷ ws) f s = for_workers ws f (f w s)

unfoldable pub restart_job : Env → String → Store → Store
restart_job e i s = elim (find i s.jobs) [
  | none ↦ s
  | some j ↦ if is_queued j.status then abort e i failed (some service_restarted) s else s
]

-- `drain()`.
unfoldable pub drain : Env → Store → Store
drain e s =
    let listened = for_workers s.pool (drain_child e) (record s { draining = true }) in
    for_each (ids listened.jobs) (restart_job e) listened

-- `busy()`.
unfoldable busy : Store → Bool
busy s = any unfinished s.jobs

pub data Readiness : Type 0 where
  is_ready is_draining models_loading no_idle_child : Readiness

-- `readiness()`.
unfoldable pub readiness : Store → Readiness
readiness s =
    let idle = filter (λ w. is_idle (s.workers w)) s.pool in
    if s.draining
    then is_draining
    else if any (λ w. (s.workers w).loaded) idle
    then is_ready
    else elim idle [ [] ↦ no_idle_child | w ∷ ws ↦ models_loading ]

-- `READY_SECONDS` and `GRACE_SECONDS`.
abbrev pub ready_limit : ℕ
ready_limit = 30000

abbrev pub grace : ℕ
grace = 200

-- What the coordinator does about one child of the pool.
pub check_child : Env → ℕ → Store → Store
check_child e w s =
    let t = drain_child e w s in
    let x = t.workers w in
    if not (is_some x.retired_at) && not x.alive
    then retire e w false true (drain_child e w t)
    else if not x.ready && leb (x.started_at + ready_limit) e.now
    then retire e w false false t
    else t

-- What it does about one job: its deadline, and a drain that found it queued.
pub check_open : Env → String → Job → Store → Store
check_open e i j s =
    if is_terminal j.status
    then s
    else if leb j.deadline e.now
    then abort e i timed_out (some deadline_exceeded) s
    else if is_queued j.status && s.draining
    then abort e i failed (some service_restarted) s
    else s

pub check_job : Env → String → Store → Store
check_job e i s = elim (find i s.jobs) [ none ↦ s | some j ↦ check_open e i j s ]

-- The jobs that wait for a child: the loop collects them as it goes, and no later turn of it
-- changes whether an earlier job waits.
unfoldable is_waiting : Store → Job → Bool
is_waiting s j = is_queued j.status && not (is_some (lookup j.id s.active))

-- The locked part of a round of `_coordinate`.
pub coordinate : Env → Store → List Send × Store
coordinate e s =
    let listened = for_workers s.pool (check_child e) (expire e s) in
    let checked = for_each (ids listened.jobs) (check_job e) listened in
    dispatch (filter (is_waiting checked) checked.jobs) checked

-- `_replenish`: whether another child is wanted, and what becomes of the attempt. A child that the
-- system refused is `none`; one that came too late is stopped and never joins the pool.
unfoldable wants_child : Env → Store → Bool
wants_child e s =
    not (s.stopping || s.draining || leb s.concurrency (length s.pool) || ltb e.now s.backoff_until)

fresh_worker : Env → Worker
fresh_worker e = record {
  started_at = e.now;
  ready = false;
  loaded = false;
  job_id = none;
  sending = false;
  served = 0;
  retired_at = none;
  killed = false;
  alive = true;
  inbox = [];
  told_to_stop = false;
  terminated = false;
  closed = false;
}

pub add_child : Env → Option ℕ → Store → Store
unfolding fresh_worker set_worker
add_child e none s = start_failed e s
add_child e (some w) s =
    if s.stopping
    then s
    else record s { pool = s.pool ++ (w ∷ []); workers = set_worker w (fresh_worker e) s.workers }

-- `_reap`: a child that has exited is let go; one past its grace is killed.
pub kill_late : Env → ℕ → Option ℕ → Store → Store
unfolding set_worker
kill_late e w none s = s
kill_late e w (some t) s =
    let x = s.workers w in
    if not x.killed && leb (t + grace) e.now
    then record s { workers = set_worker w (record x { killed = true }) s.workers }
    else s

pub reap_child : Env → ℕ → Store → Store
reap_child e w s =
    let x = s.workers w in
    if x.alive then kill_late e w x.retired_at s else record s { retiring = remove w s.retiring }

pub reap : Env → Store → Store
reap e s = for_workers s.retiring (reap_child e) s

-- `close()`: how many unfinished jobs it ended, and the store, with every child on its way out. Its
-- last lines wait for the children and empty `_retiring`.
unfoldable pub close : Env → Store → ℕ × Store
close e s =
    let shut = record s { stopping = true; db = none } in
    let unfinished_jobs = filter unfinished shut.jobs in
    let ended = for_each (ids unfinished_jobs) (λ i. abort e i cancelled none) shut in
    let retired = for_workers ended.pool (λ w. retire e w true false) ended in
    (length unfinished_jobs, record retired { retiring = [] })
