-- ===== src/Samples/Jobs.antt =====
-- Examples of what holds of the job store, at the sample stores.
use php_python_ai_bridge.Base.{
  is_blank, is_space, ℕ, ◌≡◌, ◌≢◌, refl, false, List, [], ◌∷◌, none, some, String, arith, ◌≤◌, ◌<◌,
  ◌⊎◌, count, lookup, Option, Bool, ◌==◌, string_eq, string_beq_iff, pair_eq,
}
use php_python_ai_bridge.Jobs.Types.{Store, Job, cancelled}
use php_python_ai_bridge.Jobs.Table.{find, put}
use php_python_ai_bridge.Jobs.Db.{write_submitted}
use php_python_ai_bridge.Jobs.Steps.{add_key, known}
use php_python_ai_bridge.Jobs.Finish.{finish, finish_job, end_book, end_job, release_child, abort}
use php_python_ai_bridge.Jobs.Submit.{
  accepted, public, submit_valid, accept, accept_open, admit_new, record_job, new_job, expire,
  count_refusal, of_owner, retry_after, seconds_left, finish_times, earliest, ceil_seconds,
  owner_full, is_expired, drop_keys,
}
use php_python_ai_bridge.Jobs.Service.{cancel, cancel_job, owned, coordinate, drain}
use php_python_ai_bridge.Jobs.Request.{
  submit, checked, checked_task, request_of, timeout_of_value, key_of_value, is_key,
}
use php_python_ai_bridge.Tasks.Validate.{
  validate, fields_ok, is_test_task, embed_ok, strings_ok, total_length, text_length,
}
use php_python_ai_bridge.Jobs.Reach.{Reach-IsSound, Reach-KeysMatch}
use php_python_ai_bridge.Jobs.Invariants.{IsSound}
use php_python_ai_bridge.Jobs.Keys.{KeysMatch}
use php_python_ai_bridge.Jobs.Limits.Submission.{IsLimited, Reach-IsLimited}
use php_python_ai_bridge.Jobs.Final.{Kept, ended_stays}
use php_python_ai_bridge.Jobs.Retry.{retry_frees, retry_after_pos}
use php_python_ai_bridge.Jobs.Dispatch.{dispatch, idle_child, Queue}
use php_python_ai_bridge.Jobs.Dispatch.Queues.{of_send, of_job}
use php_python_ai_bridge.Jobs.Dispatch.Laws.{dispatch_complete}
use php_python_ai_bridge.Jobs.Idempotency.{submit_again}
use php_python_ai_bridge.Json.{Value}
use php_python_ai_bridge.Samples.{
  first_store-IsSound, empty_store, at, ask, ann_job, store_1, store_2, first_step, history,
  empty-IsSound, empty-KeysMatch, empty-IsLimited,
}

Reach-IsSound_example : IsSound store_2.book
Reach-IsSound_example = Reach-IsSound history empty-IsSound

Reach-IsLimited_example : IsLimited store_2.book
Reach-IsLimited_example = Reach-IsLimited history empty-IsLimited

Reach-KeysMatch_example : KeysMatch store_2.book
Reach-KeysMatch_example = Reach-KeysMatch history empty-IsSound empty-KeysMatch

pub first_store-KeysMatch : KeysMatch store_1.book
first_store-KeysMatch = Reach-KeysMatch first_step empty-IsSound empty-KeysMatch

store_1_awake : (store_1.draining ≡ false) × (store_1.stopping ≡ false)
unfolding submit checked checked_task request_of timeout_of_value key_of_value is_key validate
    fields_ok is_test_task embed_ok strings_ok total_length text_length is_blank is_space lookup
    drop_keys new_job expire submit_valid accept accept_open admit_new record_job count_refusal
    write_submitted known owner_full find put is_expired add_key
store_1_awake = (refl, refl)

ann_found : find "j1" (expire (at 10 "j2") store_1).jobs ≡ some ann_job
unfolding submit checked checked_task request_of timeout_of_value key_of_value is_key validate
    fields_ok is_test_task embed_ok strings_ok total_length text_length is_blank is_space lookup
    drop_keys new_job expire submit_valid accept accept_open admit_new record_job count_refusal
    write_submitted known owner_full find put is_expired add_key
ann_found = refl

submit_again_example :
    submit_valid (at 10 "j2") (ask "ann" (some "k")) store_1
    ≡ (accepted (public ann_job), expire (at 10 "j2") store_1)
unfolding new_job
submit_again_example =
    submit_again (at 10 "j2") (ask "ann" (some "k")) store_1 "k" ann_job first_store-IsSound
      first_store-KeysMatch store_1_awake.0 store_1_awake.1 ann_found refl refl refl

ann-ne-bob : ann_job.owner ≢ "bob"
unfolding new_job
ann-ne-bob h = ground (arith, (string_beq_iff "ann" "bob").1 h)

-- A store whose one job has ended.
abbrev ended_job : Job
ended_job = end_job (at 20 "x") ann_job cancelled none none

ended_found : find "j1" store_2.jobs ≡ some ended_job
unfolding submit checked checked_task request_of timeout_of_value key_of_value is_key validate
    fields_ok is_test_task embed_ok strings_ok total_length text_length is_blank is_space lookup
    drop_keys new_job expire submit_valid accept accept_open admit_new record_job count_refusal
    write_submitted known owner_full find put is_expired add_key cancel cancel_job owned abort
    release_child finish finish_job end_book end_job
ended_found = refl

last_store-IsSound : IsSound store_2.book
last_store-IsSound = Reach-IsSound history empty-IsSound

ended_stays_example :
    Kept "j1" ended_job (cancel (at 30 "x") "j1" "ann" store_2).1.book
    × Kept "j1" ended_job (coordinate (at 30 "x") store_2).1.book
    × Kept "j1" ended_job (drain (at 30 "x") store_2).book
unfolding end_job
ended_stays_example =
    ended_stays (at 30 "x") "j1" "ann" store_2 ended_job last_store-IsSound ended_found refl

-- A client that is refused while the one job is kept for its result waits a minute.
abbrev kept_store : Store
kept_store = record empty_store { book = record (empty_store.book) { jobs = ended_job ∷ [] } }

retry_frees_example :
    count (of_owner (some "ann")) (expire (at 90000 "x") kept_store).jobs
    < count (of_owner (some "ann")) kept_store.jobs
unfolding end_job new_job of_owner retry_after seconds_left finish_times earliest ceil_seconds
retry_frees_example =
    retry_frees (at 20 "x") (at 90000 "x") (some "ann") kept_store refl (omega arith)

retry_after_pos_example : 1 ≤ retry_after (at 20 "x") none kept_store
retry_after_pos_example = retry_after_pos (at 20 "x") none kept_store

-- The jobs of an id.
abbrev with_id : String → String → String → Option Value → Bool
with_id i id task input = id == i

dispatch_complete_example :
    (count (of_send (with_id "j1")) (dispatch (ann_job ∷ ann_job ∷ []) empty_store).0
      ≤ count (of_job (with_id "j1")) (ann_job ∷ ann_job ∷ []))
    × ((count (of_send (with_id "j1")) (dispatch (ann_job ∷ ann_job ∷ []) empty_store).0
          ≡ count (of_job (with_id "j1")) (ann_job ∷ ann_job ∷ []))
        ⊎ (idle_child (dispatch (ann_job ∷ ann_job ∷ []) empty_store).1 ≡ none))
dispatch_complete_example = dispatch_complete (ann_job ∷ ann_job ∷ []) empty_store (with_id "j1")

abbrev queue_of : String → Queue
queue_of o = record { owner = o; first = ann_job; rest = [] }

abbrev turns : List (String × ℕ)
turns = ("ann", 5) ∷ ("bob", 2) ∷ []
