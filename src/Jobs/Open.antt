-- ===== src/Jobs/Open.antt =====
-- `__init__` and `_open_db`: the store that a start makes of the table that an earlier run left.
pub mod Laws
pub mod Restored
pub mod Sound
use php_python_ai_bridge.Base.{ℕ, Bool, false, List, [], ◌∷◌, Option, none, some, String}
use php_python_ai_bridge.Metrics.{new_histogram}
use php_python_ai_bridge.Jobs.Types.{Job, Row, Env, Settings, Book, Store, Worker}
use php_python_ai_bridge.Jobs.Table.{put}
use php_python_ai_bridge.Jobs.Db.{recover, restore, restore_keys}

-- `self._jobs[job_id] = {...}`, for each row.
pub restore_jobs : ℕ → ℕ → List Row → List Job → List Job
restore_jobs now wall [] js = js
restore_jobs now wall (r ∷ rs) js = restore_jobs now wall rs (put (restore now wall r) js)

-- The aggregates start at zero in every process.
pub open_book : Env → Settings → List Row → Book
open_book e settings rows = record {
  settings = settings;
  jobs = restore_jobs e.now e.wall rows [];
  keys = restore_keys rows [];
  ended = λ o t st. 0;
  submitted = λ o t. 0;
  rejected = λ o. 0;
  durations = λ t. new_histogram;
  waits = λ t. new_histogram;
  recent = [];
}

-- The store before its first child, for a heap of children still to be created.
pub open_store : Env → Settings → (ℕ → Worker) → List Row → Store
open_store e settings heap rows =
    let kept = recover e.wall settings.retention rows in
    record {
      book = open_book e settings kept;
      active = [];
      served = [];
      dispatched = 0;
      pool = [];
      retiring = [];
      workers = heap;
      backoff_until = 0;
      stopping = false;
      draining = false;
      db = some kept;
    }
