-- ===== src/Jobs/Db.antt =====
-- The SQLite table `jobs`: `_write`, the deletion in `_expire`, and what `_open_db` does to the
-- rows of an earlier run. A failed statement leaves the table as it was.
use php_python_ai_bridge.Base.{
  ℕ, ◌+◌, ◌-◌, Bool, true, false, not, ◌&&◌, ◌||◌, List, [], ◌∷◌, ◌++◌, Option, none, some, String,
  ◌==◌, string_eq, if◌then◌else◌, leb, map, filter, any, insert, pair_eq,
}
use php_python_ai_bridge.Jobs.Types.{Job, Row, Env, failed, is_terminal, service_restarted}

abbrev default_owner : String
default_owner = "default"

finish_time : Env → Job → Option ℕ
finish_time e j = elim j.finished [ none ↦ none | some _ ↦ some e.wall ]

-- `UPDATE jobs SET status, result, error, progress, finished_at WHERE id`.
update_row : Env → Job → List Row → List Row
unfolding finish_time
update_row e j [] = []
update_row e j (r ∷ rs) =
    (if r.id == j.id
      then record r {
        status = j.status;
        result = j.result;
        error = j.error;
        progress = j.progress;
        finished_at = finish_time e j;
      }
      else r)
    ∷ update_row e j rs

key_clash : Option String → Option String → Bool
key_clash (some a) (some b) = a == b
key_clash (some a) none = false
key_clash none _ = false

-- The rows that `INSERT OR REPLACE` drops: the one with the id, and the one with the owner's key.
conflicts : Job → Row → Bool
unfolding key_clash
conflicts j r = r.id == j.id || key_clash r.owner (some j.owner) && key_clash r.key j.key

-- `INSERT OR REPLACE INTO jobs`.
replace_row : Env → Job → List Row → List Row
unfolding conflicts finish_time
replace_row e j rs = filter (λ r. not (conflicts j r)) rs ++ (row ∷ [])
  where
    row : Row
    row = record {
      id = j.id;
      task = j.task;
      status = j.status;
      result = j.result;
      error = j.error;
      progress = j.progress;
      timeout_ms = j.timeout_ms;
      key = j.key;
      submitted_at = e.wall;
      finished_at = finish_time e j;
      owner = some j.owner;
    }

-- `_write(job)`: a later write that fails leaves this process's copy answering.
unfoldable pub write : Env → Job → Option (List Row) → Option (List Row)
unfolding update_row
write e j none = none
write e j (some rs) = some (if e.db_ok then update_row e j rs else rs)

-- `_write(job, submitted=True)`: `none` where the submission is refused.
unfoldable pub write_submitted : Env → Job → Option (List Row) → Option (Option (List Row))
unfolding replace_row
write_submitted e j none = some none
write_submitted e j (some rs) = if e.db_ok then some (some (replace_row e j rs)) else none

-- `DELETE FROM jobs WHERE id = ?`, for each id.
unfoldable pub delete_rows : Env → List String → Option (List Row) → Option (List Row)
delete_rows e ids none = none
delete_rows e ids (some rs) =
    some (if e.db_ok then filter (λ r. not (any (λ i. i == r.id) ids)) rs else rs)

-- The statements of `_open_db`, in order: the default owner, then the jobs that never completed,
-- then the results past their retention.
unfoldable pub adopt : Row → Row
adopt r = elim r.owner [ none ↦ record r { owner = some default_owner } | some o ↦ r ]

unfoldable pub fail_unfinished : ℕ → Row → Row
fail_unfinished wall r = if is_terminal r.status then r else record r {
  status = failed;
  result = none;
  error = some service_restarted;
  finished_at = some wall;
}

unfoldable pub is_stale : ℕ → ℕ → Row → Bool
is_stale wall retention r = elim r.finished_at [ none ↦ true | some f ↦ leb (f + retention) wall ]

unfoldable pub recover : ℕ → ℕ → List Row → List Row
unfolding adopt fail_unfinished is_stale
recover wall retention rs =
    filter (λ r. not (is_stale wall retention r)) (map (fail_unfinished wall) (map adopt rs))

owner_of : Row → String
owner_of r = elim r.owner [ none ↦ default_owner | some o ↦ o ]

-- Retention goes on from the wall-clock finish, carried over to this process's monotonic clock.
finish_of : ℕ → ℕ → Row → ℕ
finish_of now wall r = elim r.finished_at [ none ↦ now | some f ↦ now - (wall - f) ]

-- The job that `_open_db` makes of a row.
unfoldable pub restore : ℕ → ℕ → Row → Job
unfolding owner_of finish_of
restore now wall r = record {
  id = r.id;
  task = r.task;
  status = r.status;
  result = r.result;
  error = r.error;
  progress = r.progress;
  timeout_ms = r.timeout_ms;
  input = none;
  deadline = now;
  finished = some (finish_of now wall r);
  retried = true;
  key = r.key;
  submitted_at = now;
  started_at = none;
  owner = owner_of r;
}

-- `_keys` of the restored jobs.
unfoldable pub restore_keys :
    List Row → List ((String × String) × String) → List ((String × String) × String)
unfolding owner_of
restore_keys [] keys = keys
restore_keys (r ∷ rs) keys =
    restore_keys rs (elim r.key [ none ↦ keys | some k ↦ insert (owner_of r, k) r.id keys ])
