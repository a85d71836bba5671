-- ===== src/Jobs/Finish/Trace.antt =====
-- Ending a job and retiring a child, seen as steps of the job table.
use php_python_ai_bridge.Base.{
  ℕ, ◌≡◌, refl, Bool, true, false, inl, inr, List, [], ◌∷◌, Option, none, some, String, arith,
  Option-cases, is_some, ap, ◌∙◌, not, ◌&&◌, if_ind, lookup, string_eq, nat_eq, subst,
}
use php_python_ai_bridge.Json.{Value}
use php_python_ai_bridge.Jobs.Types.{
  Job, Env, Store, Book, Status, failed, unfinished, is_terminal, is_queued, ErrorCode,
  worker_start_failed, worker_crashed,
}
use php_python_ai_bridge.Jobs.Table.{find, put-split}
use php_python_ai_bridge.Jobs.Steps.{Step, Steps, close, edit, here, Steps-trans, Steps-one}
use php_python_ai_bridge.Jobs.Finish.{
  finish_job, end_job, end_book, finish, for_each, fail_queued_job, fail_queued, start_failed,
  requeue_job, requeue, take_out, hold_back, set_worker, retire_now, retire, release_child, abort,
  ids, is_empty,
}

-- The job table after an operation is reached from the one before by steps that add no job.
abbrev pub Traced : Store → Store → Type 0
Traced s t = Steps false s.book t.book

module _ (e : Env) where
  finish_job-Step :
      (i : String) (j : Job) (st : Status) (r : Option Value) (code : Option ErrorCode) (s : Store)
      → find i s.jobs ≡ some j
      → unfinished j ≡ true
      → is_terminal st ≡ true
      → Step false s.book (finish_job e j st r code s).book
  unfolding finish_job end_book end_job
  finish_job-Step i j st r code s found open_j ends =
      let (xs, ys, p, q) = put-split i s.jobs found (end_job e j st r code) refl in
      close xs j (end_job e j st r code) ys p q
        (record { same_id = refl; same_owner = refl; same_task = refl; same_key = refl }) open_j
        (ground arith) refl refl refl refl refl

  pub for_each-Steps :
      (f : String → Store → Store)
      → ((i : String) (s : Store) → Steps false s.book (f i s).book)
      → (is : List String) (s : Store) → Steps false s.book (for_each is f s).book
  unfolding for_each
  for_each-Steps f h [] s = here
  for_each-Steps f h (i ∷ is) s = Steps-trans (h i s) (for_each-Steps f h is (f i s))

  pub finish_job-Steps :
      (i : String) (j : Job) (st : Status) (r : Option Value) (code : Option ErrorCode) (s : Store)
      → find i s.jobs ≡ some j
      → unfinished j ≡ true
      → is_terminal st ≡ true
      → Traced s (finish_job e j st r code s)
  finish_job-Steps i j st r code s found open_j ends =
      Steps-one (finish_job-Step i j st r code s found open_j ends)

  fail_queued_job-Steps :
      (i : String) (j : Job) (s : Store) → find i s.jobs ≡ some j → Traced s (fail_queued_job e j s)
  unfolding fail_queued_job
  fail_queued_job-Steps i j s found =
      if_ind (Traced s) (is_queued j.status && not (is_some (lookup j.id s.active)))
        (λ h.
          finish_job-Steps i j failed none (some worker_start_failed) s found (ground arith) refl)
        (λ _. here)

  fail_queued-Steps : (i : String) (s : Store) → Traced s (fail_queued e i s)
  unfolding fail_queued
  fail_queued-Steps i s = elim (Option-cases (find i s.jobs)) [
    | inl absent ↦ rw (absent, fail_queued) here
    | inr (j, found) ↦ rw (found, fail_queued) (fail_queued_job-Steps i j s found)
  ]

  pub start_failed-Steps : (s : Store) → Traced s (start_failed e s)
  unfolding start_failed
  start_failed-Steps s =
      if_ind (Traced s) (is_empty s.pool && not s.draining)
        (λ _. for_each-Steps (fail_queued e) fail_queued-Steps (ids s.jobs) _) (λ _. here)

  requeue_job-Steps :
      (i : String) (j : Job) (s : Store) → find i s.jobs ≡ some j → Traced s (requeue_job e j s)
  unfolding requeue_job
  requeue_job-Steps i j s found =
      if_ind (Traced s) (is_terminal j.status) (λ _. here)
        λ open_j.
          if_ind (Traced s) (is_queued j.status && not j.retried)
            (λ h.
              let (xs, ys, p, q) = put-split i s.jobs found (record j { retried = true }) refl in
              Steps-one (
                edit xs j (record j { retried = true }) ys p q
                  (record { same_id = refl; same_owner = refl; same_task = refl; same_key = refl })
                  (ground arith) (ground arith) refl
                  (record {
                    same_ended = refl;
                    same_submitted = refl;
                    same_settings = refl;
                    same_keys = refl;
                  })))
            (λ _.
              finish_job-Steps i j failed none (some worker_crashed) s found (ground arith) refl)

  requeue-Steps : (i : Option String) (s : Store) → Traced s (requeue e i s)
  unfolding requeue
  requeue-Steps none s = here
  requeue-Steps (some i) s = elim (Option-cases (find i s.jobs)) [
    | inl absent ↦ rw (absent, requeue) here
    | inr (j, found) ↦ rw (found, requeue) (requeue_job-Steps i j s found)
  ]

  hold_back-Steps : (ready died : Bool) (s : Store) → Traced s (hold_back e ready died s)
  unfolding hold_back
  hold_back-Steps true died s = here
  hold_back-Steps false true s = start_failed-Steps s
  hold_back-Steps false false s = here

  retire_now-Steps : (w : ℕ) (stop died : Bool) (s : Store) → Traced s (retire_now e w stop died s)
  unfolding retire_now take_out
  retire_now-Steps w stop died s =
      Steps-trans (hold_back-Steps (s.workers w).ready died (take_out e w stop s))
        (requeue-Steps (s.workers w).job_id _)

  -- Retiring a child ends its job, or puts it back in the queue; a failed start ends queued jobs.
  pub retire-Steps : (w : ℕ) (stop died : Bool) (s : Store) → Traced s (retire e w stop died s)
  unfolding retire
  retire-Steps w stop died s = elim (Option-cases (s.workers w).retired_at) [
    | inl still ↦ rw (still, retire) (retire_now-Steps w stop died _)
    | inr (t, gone) ↦ rw (gone, retire) here
  ]

  hold_back-book : (ready : Bool) (s : Store) → (hold_back e ready false s).book ≡ s.book
  unfolding hold_back
  hold_back-book true s = refl
  hold_back-book false s = refl

  retire_now-book :
      (w : ℕ) (stop : Bool) (t : Store)
      → (t.workers w).job_id ≡ none
      → (retire_now e w stop false t).book ≡ t.book
  unfolding retire_now take_out requeue
  retire_now-book w stop t free = rw (free, retire_now) (hold_back-book (t.workers w).ready _)

  -- A child that has no job is retired without touching the job table, unless it died.
  retire-book :
      (w : ℕ) (stop : Bool) (s : Store)
      → (s.workers w).job_id ≡ none
      → (retire e w stop false s).book ≡ s.book
  unfolding retire
  retire-book w stop s free = elim (Option-cases (s.workers w).retired_at) [
    | inl still ↦ rw (still, retire) (retire_now-book w stop _ free)
    | inr (t, gone) ↦ rw (gone, retire) refl
  ]

  pub release_child-book : (i : String) (s : Store) → (release_child e i s).book ≡ s.book
  unfolding release_child set_worker
  release_child-book i s = elim (Option-cases (lookup i s.active)) [
    | inl absent ↦ rw (absent, release_child) refl
    | inr (w, sent) ↦ rw (sent, release_child) (retire-book w false _ (ground arith))
  ]

  finish-Steps :
      (i : String) (j : Job) (st : Status) (r : Option Value) (code : Option ErrorCode) (s : Store)
      → find i s.jobs ≡ some j
      → unfinished j ≡ true
      → is_terminal st ≡ true
      → Traced s (finish e i st r code s)
  unfolding finish
  finish-Steps i j st r code s found open_j ends =
      rw (found, finish) (finish_job-Steps i j st r code s found open_j ends)

  -- Aborting an unfinished job ends it and no other.
  pub abort-Steps :
      (i : String) (j : Job) (st : Status) (code : Option ErrorCode) (s : Store)
      → find i s.jobs ≡ some j
      → unfinished j ≡ true
      → is_terminal st ≡ true
      → Traced s (abort e i st code s)
  unfolding abort
  abort-Steps i j st code s found open_j ends =
      subst (λ b. Steps false b (abort e i st code s).book) (release_child-book i s)
        (finish-Steps i j st none code (release_child e i s)
          (ap (λ (b : Book). find i b.jobs) (release_child-book i s) ∙ found) open_j ends)
