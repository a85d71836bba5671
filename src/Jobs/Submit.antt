-- ===== src/Jobs/Submit.antt =====
-- Admission: `_expire`, `_retry_after` and `_accept`.
mod Wait
pub mod Trace
unfoldable pub use Wait.*
use php_python_ai_bridge.Base.{
  ℕ, ◌+◌, ◌-◌, ◌*◌, ◌/◌, ◌%◌, min, max, Bool, true, false, not, ◌&&◌, ◌||◌, List, [], ◌∷◌, ◌++◌,
  Option, none, some, String, ◌==◌, string_eq, nat_eq, pair_eq, if◌then◌else◌, is_some, lookup,
  discard, insert, length, count, filter, leb, drop,
}
use php_python_ai_bridge.Base.Sort.{sort}
use Prim.Native.String.{◌++◌ as join}
use php_python_ai_bridge.Json.{Value}
use php_python_ai_bridge.Jobs.Types.{Job, PublicJob, Env, Store, Book, Status, queued, unfinished}
use php_python_ai_bridge.Jobs.Table.{find, put}
use php_python_ai_bridge.Jobs.Db.{write_submitted, delete_rows}
use php_python_ai_bridge.Jobs.Steps.{count_submit, drop_key, add_key, known}
use php_python_ai_bridge.Jobs.Finish.{ids}

-- What `submit` raises. `key_error` is a key that names no job of the table.
pub data Refusal : Type 0 where
  value_error overflow_error draining_error key_error : Refusal
  capacity_error : (retry_after : ℕ) → Refusal

pub data Reply : Type 0 where
  accepted : PublicJob → Reply
  refused : Refusal → Reply

pub record Request : Type 0 where
  pub task : String
  pub payload : Value
  pub timeout_ms : ℕ
  pub key : Option String
  pub owner : String

-- `_public(job)`.
unfoldable pub public : Job → PublicJob
public j = record {
  id = j.id;
  task = j.task;
  status = j.status;
  result = j.result;
  error = j.error;
  progress = j.progress;
  timeout_ms = j.timeout_ms;
}

unfoldable pub is_expired : Env → ℕ → Job → Bool
is_expired e retention j = elim j.finished [ none ↦ false | some f ↦ leb (f + retention) e.now ]

unfoldable pub drop_keys :
    List Job → List ((String × String) × String) → List ((String × String) × String)
drop_keys [] keys = keys
drop_keys (j ∷ js) keys = drop_keys js (drop_key j keys)

pub delete_expired : Env → List Job → Store → Store
delete_expired e [] s = s
delete_expired e (j ∷ js) s = record s { db = delete_rows e (ids (j ∷ js)) s.db }

-- `_expire()`.
unfoldable pub expire : Env → Store → Store
unfolding delete_expired
expire e s =
    let gone = filter (is_expired e s.retention) s.jobs in
    delete_expired e gone (record s {
      book = record (s.book) {
        jobs = filter (λ j. not (is_expired e s.retention j)) s.jobs;
        keys = drop_keys gone s.keys;
      };
    })

-- The jobs that are yet to end, those that an owner holds, and those that are kept for their result.
abbrev pub active_count : List Job → ℕ
active_count js = count unfinished js

abbrev pub owner_count : String → List Job → ℕ
owner_count o js = count (λ j. j.owner == o) js

unfoldable pub owner_full : String → Store → Bool
owner_full o s = elim s.owner_capacity [ none ↦ false | some cap ↦ leb cap (owner_count o s.jobs) ]

unfoldable pub job_name : Env → Store → String
job_name e s = elim s.instance_id [ none ↦ e.uuid | some name ↦ join name (join "-" e.uuid) ]

-- The new job of `_accept`.
unfoldable pub new_job : Env → Request → Store → Job
unfolding job_name
new_job e r s = record {
  id = job_name e s;
  task = r.task;
  status = queued;
  result = none;
  error = none;
  progress = none;
  timeout_ms = r.timeout_ms;
  input = some r.payload;
  deadline = e.now + r.timeout_ms;
  finished = none;
  retried = false;
  key = r.key;
  submitted_at = e.now;
  started_at = none;
  owner = r.owner;
}

unfoldable pub record_job : Env → Job → Store → Reply × Store
unfolding count_submit
record_job e j s = elim (write_submitted e j s.db) [
  | none ↦ (refused (capacity_error 1), s)
  | some db ↦ (
    accepted (public j),
    record s {
      book = record (s.book) {
        jobs = put j s.jobs;
        submitted = count_submit j.owner j.task s.submitted;
        keys = add_key j s.keys;
      };
      db = db;
    },
  )
]

-- The limits, in the order of `_accept`, and the new job behind them.
unfoldable pub admit_new : Env → Request → Store → Reply × Store
admit_new e r s =
    let active = active_count s.jobs in
    if owner_full r.owner s
    then (refused (capacity_error (retry_after e (some r.owner) s)), s)
    else if leb s.capacity active
    then (
      refused (capacity_error (min 300 (max 1 (queue_seconds active s.concurrency s.recent)))),
      s,
    )
    else if leb s.result_capacity (length s.jobs - active)
    then (refused (capacity_error (retry_after e none s)), s)
    else record_job e (new_job e r s) s

-- The job of an earlier submission with the same key.
unfoldable pub answer : String → Store → Reply × Store
answer i s = elim (find i s.jobs) [
  | none ↦ (refused key_error, s)
  | some j ↦ (accepted (public j), s)
]

unfoldable pub accept_open : Env → Request → Store → Reply × Store
accept_open e r s = elim (known r.owner r.key s.keys) [
  | none ↦ admit_new e r s
  | some i ↦ answer i s
]

-- `_accept(...)`.
unfoldable pub accept : Env → Request → Store → Reply × Store
accept e r s =
    if s.draining
    then (refused draining_error, s)
    else if s.stopping
    then (refused (capacity_error 1), s)
    else accept_open e r (expire e s)

count_rejected : String → (String → ℕ) → String → ℕ
count_rejected o f o' = if o == o' then f o' + 1 else f o'

-- Every 429 that the service sends is counted.
unfoldable pub count_refusal : String → Reply × Store → Reply × Store
unfolding count_rejected
count_refusal o (refused (capacity_error n), s) = (
  refused (capacity_error n),
  record s { book = record (s.book) { rejected = count_rejected o s.rejected } },
)
count_refusal o (refused value_error, s) = (refused value_error, s)
count_refusal o (refused overflow_error, s) = (refused overflow_error, s)
count_refusal o (refused draining_error, s) = (refused draining_error, s)
count_refusal o (refused key_error, s) = (refused key_error, s)
count_refusal o (accepted j, s) = (accepted j, s)

-- `submit`, behind the checks of its arguments.
unfoldable pub submit_valid : Env → Request → Store → Reply × Store
submit_valid e r s = count_refusal r.owner (accept e r s)
