-- ===== src/Samples.antt =====
-- A service with two owners, a history of it, and tests of the operations at it.
mod Tasks
mod Jobs
mod Starts
mod Mcp
mod Index
mod Tools
mod Protocol
mod Server
mod Cards
mod Log
mod Ibans
use php_python_ai_bridge.Base.{
  is_blank, is_space, ℕ, ◌+◌, ◌≡◌, ◌≢◌, refl, Bool, true, false, List, [], ◌∷◌, Option, none, some,
  String, arith, ◌≤◌, ◌<◌, ◌⊎◌, count, length, lookup, string_eq, string_beq_iff, ◌==◌, pair_eq,
}
use php_python_ai_bridge.Json.{
  Value, null, str, int, obj, arr, member, item, end_members, end_items,
}
use php_python_ai_bridge.Metrics.{new_histogram, observe}
use php_python_ai_bridge.Jobs.Types.{
  Env, Settings, Book, Store, Worker, Job, queued, cancelled, status_beq,
}
use php_python_ai_bridge.Jobs.Table.{find, put}
use php_python_ai_bridge.Jobs.Db.{write, write_submitted, delete_rows}
use php_python_ai_bridge.Jobs.Steps.{count_submit, add_key, known, drop_key}
use php_python_ai_bridge.Jobs.Finish.{
  finish, finish_job, end_book, end_job, count_end, release_child, abort, for_each, remember,
  observe_at,
}
use php_python_ai_bridge.Jobs.Submit.{
  Request, accepted, refused, key_error, public, submit_valid, accept, accept_open, admit_new,
  record_job, new_job, expire, count_refusal, of_owner, retry_after, seconds_left, finish_times,
  earliest, ceil_seconds, owner_full, delete_expired, is_expired, drop_keys,
}
use php_python_ai_bridge.Jobs.Service.{get, cancel, cancel_job, owned, coordinate, drain}
use php_python_ai_bridge.Jobs.Request.{
  submit, checked, checked_task, request_of, timeout_of_value, key_of_value, is_key,
}
use php_python_ai_bridge.Tasks.Validate.{
  validate, fields_ok, is_test_task, embed_ok, strings_ok, total_length, text_length,
}
use php_python_ai_bridge.Jobs.Reach.{
  Reach-IsSound, Reach, start, then_, Move, submits, cancels, Reach-IsSound, Reach-KeysMatch,
}
use php_python_ai_bridge.Jobs.Invariants.{IsSound}
use php_python_ai_bridge.Jobs.Keys.{KeysMatch}
use php_python_ai_bridge.Jobs.Limits.Submission.{IsLimited, Reach-IsLimited}
use php_python_ai_bridge.Jobs.Final.{Kept, ended_stays}
use php_python_ai_bridge.Jobs.Retry.{retry_frees, retry_after_pos}
use php_python_ai_bridge.Jobs.Dispatch.{
  dispatch, idle_child, Queue, least, is_idle, attach, attach_to,
}
use php_python_ai_bridge.Jobs.Dispatch.Laws.{dispatch_complete, IsLeast, attach-idle}
use php_python_ai_bridge.Jobs.Idempotency.{submit_again, submit-ne-key_error}

abbrev pub settings : Settings
settings = record {
  concurrency = 1;
  capacity = 2;
  result_capacity = 2;
  retention = 60000;
  backend = "lexical";
  test_tasks = false;
  max_jobs = 10;
  owners = "ann" ∷ "bob" ∷ [];
  owner_capacity = some 2;
  instance_id = none;
}

abbrev pub new_child : Worker
new_child = record {
  started_at = 0;
  ready = true;
  loaded = true;
  job_id = none;
  sending = false;
  served = 0;
  retired_at = none;
  killed = false;
  alive = true;
  inbox = [];
  told_to_stop = false;
  terminated = false;
  closed = false;
}

-- One idle child, and no job yet.
abbrev pub empty_store : Store
empty_store = record {
  book = record {
    settings = settings;
    jobs = [];
    keys = [];
    ended = λ o t st. 0;
    submitted = λ o t. 0;
    rejected = λ o. 0;
    durations = λ t. record { counts = []; total = 0; count = 0 };
    waits = λ t. record { counts = []; total = 0; count = 0 };
    recent = [];
  };
  active = [];
  served = [];
  dispatched = 0;
  pool = 0 ∷ [];
  retiring = [];
  workers = λ w. new_child;
  backoff_until = 0;
  stopping = false;
  draining = false;
  db = some [];
}

abbrev pub at : ℕ → String → Env
at t name = record { now = t; wall = 1000000 + t; db_ok = true; uuid = name }

abbrev pub embed_input : Value
embed_input = obj (member "texts" (arr (item (str "hi") end_items)) end_members)

abbrev pub ask : String → Option String → Request
ask o k = record { task = "embed"; payload = embed_input; timeout_ms = 5000; key = k; owner = o }

-- Ann submits a job under a key, and cancels it.
abbrev pub ann_job : Job
ann_job = new_job (at 0 "j1") (ask "ann" (some "k")) empty_store

abbrev pub store_1 : Store
store_1 = (submit (at 0 "j1") (str "embed") embed_input (int 5000) (str "k") "ann" empty_store).1

abbrev pub store_2 : Store
store_2 = (cancel (at 20 "x") "j1" "ann" store_1).1

pub first_step : Reach empty_store store_1
unfolding find new_job expire
first_step =
    then_ start (submits (at 0 "j1") (str "embed") embed_input (int 5000) (str "k") "ann" refl)

pub history : Reach empty_store store_2
history = then_ first_step (cancels (at 20 "x") "j1" "ann")

pub empty-IsSound : IsSound empty_store.book
empty-IsSound = record { dated = tt; distinct = λ i. omega arith; balanced = λ o t. refl }

no_key : (o k i : String) → ¬ (lookup (o, k) empty_store.keys ≡ some i)
unfolding lookup
no_key o k i h = ground (arith, h)

pub empty-KeysMatch : KeysMatch empty_store.book
empty-KeysMatch = record { names = λ o k i h. absurd (no_key o k i h); indexed = tt }

pub empty-IsLimited : IsLimited empty_store.book
empty-IsLimited = record {
  active_limit = omega arith;
  total_limit = omega arith;
  owner_limit = λ o cap h. omega arith;
}

pub first_store-IsSound : IsSound store_1.book
first_store-IsSound = Reach-IsSound first_step empty-IsSound
