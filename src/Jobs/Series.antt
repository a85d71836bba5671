-- ===== src/Jobs/Series.antt =====
-- The series of the metrics, which exist for the configured owners and the known tasks only, and the jobs
-- whose end `_finish` counts in them.
use php_python_ai_bridge.Base.{
  ◌≡◌, sym, ◌∙◌, ap, subst, Bool, true, false, not, ◌&&◌, ◌||◌, inl, inr, List, ◌∷◌, ◌++◌, String,
  arith, Option-cases, All, All-middle, All-insert, if_ind, leb, length, ◌-◌,
}
use php_python_ai_bridge.Tasks.Validate.{contains}
use php_python_ai_bridge.Jobs.Types.{Job, Book, Store, Env, Settings, unfinished}
use php_python_ai_bridge.Jobs.Table.{find}
use php_python_ai_bridge.Jobs.Table.Laws.{put-All}
use php_python_ai_bridge.Jobs.Steps.{
  Steps, Step, idle, edit, close, forget, admit, here, next, SameJob, known,
}
use php_python_ai_bridge.Jobs.Db.{write_submitted}
use php_python_ai_bridge.Jobs.Submit.{
  Request, Reply, accepted, refused, capacity_error, value_error, overflow_error, draining_error,
  key_error, new_job, record_job, admit_new, owner_full, active_count, answer, accept_open, accept,
  expire, count_refusal, submit_valid,
}
use php_python_ai_bridge.Jobs.Submit.Trace.{expire-Steps}
use php_python_ai_bridge.Jobs.Limits.{Steps-Within}
use php_python_ai_bridge.Jobs.Request.{task_names}
use php_python_ai_bridge.Jobs.Request.Laws.{IsChecked, submit_ind}
use php_python_ai_bridge.Jobs.Service.Trace.{
  get-Steps, cancel-Steps, drain-Steps, coordinate-Steps, sent-Steps, add_child-Steps, reap-Steps,
}
use php_python_ai_bridge.Jobs.Reach.{
  Reach, start, then_, Move, submits, gets, cancels, drains, coordinates, sends, starts, reaps,
  hears, dies, hear, die,
}

-- `_submitted`, `_ended`, `_durations` and `_waits` have entries for the job.
unfoldable pub has_series : Settings → Job → Bool
has_series settings j =
    contains settings.owners j.owner && contains (task_names settings.test_tasks) j.task

-- The job has ended, or has its series.
abbrev InSeries : Settings → Job → Type 0
InSeries settings j = (not (unfinished j) || has_series settings j) ≡ true

abbrev HasSeries : Book → Type 0
HasSeries b = All (InSeries b.settings) b.jobs

same-InSeries :
    (settings : Settings) (j j' : Job)
    → SameJob j j'
    → unfinished j ≡ true
    → InSeries settings j
    → InSeries settings j'
unfolding has_series
same-InSeries settings j j' same open_j h =
    let mine : has_series settings j ≡ true = ground (arith, h, open_j) in
    let yours : has_series settings j' ≡ has_series settings j =
      ap (λ o. contains settings.owners o && contains (task_names settings.test_tasks) j'.task)
        same.same_owner
      ∙ ap (λ t. contains settings.owners j.owner && contains (task_names settings.test_tasks) t)
          same.same_task in
    ground (arith, mine, yours)

module _ (b c : Book) (h : HasSeries b) where
  moved :
      (js : List Job)
      → c.jobs ≡ js
      → c.settings ≡ b.settings
      → All (InSeries b.settings) js
      → HasSeries c
  moved js p kept g =
      subst (λ t. All (InSeries t) c.jobs) (sym kept) (subst (All (InSeries b.settings)) (sym p) g)

  parts :
      (xs : List Job) (j : Job) (ys : List Job)
      → b.jobs ≡ xs ++ (j ∷ ys)
      → InSeries b.settings j × All (InSeries b.settings) (xs ++ ys)
  parts xs j ys p = All-middle (InSeries b.settings) xs j ys (subst (All (InSeries b.settings)) p h)

  Step-HasSeries : Step false b c → HasSeries c
  Step-HasSeries (idle p q) = moved b.jobs p q.same_settings h
  Step-HasSeries (edit xs j j' ys p q r u v w x) =
      let (mine, others) = parts xs j ys p in
      moved (xs ++ (j' ∷ ys)) q x.same_settings
        (All-insert (InSeries b.settings) xs j' ys (same-InSeries b.settings j j' r u mine) others)
  Step-HasSeries (close xs j j' ys p q r u v w x y z n) =
      let (mine, others) = parts xs j ys p in
      moved (xs ++ (j' ∷ ys)) q z
        (All-insert (InSeries b.settings) xs j' ys (ground (arith, v)) others)
  Step-HasSeries (forget xs j ys p q r x y z n) =
      let (mine, others) = parts xs j ys p in moved (xs ++ ys) q z others
  Step-HasSeries (admit j g p q u v x y z n k) = cc

Steps-HasSeries : {b c : Book} → Steps false b c → HasSeries b → HasSeries c
Steps-HasSeries here h = h
Steps-HasSeries {b} {c} (next {c = m} p s) h = Step-HasSeries m c (Steps-HasSeries p h) s

abbrev Kept : Reply × Store → Type 0
Kept p = HasSeries p.1.book

module _ (e : Env) (r : Request) (s : Store) (h : HasSeries s.book) where
  record_job-HasSeries : InSeries s.settings (new_job e r s) → Kept (record_job e (new_job e r s) s)
  unfolding record_job
  record_job-HasSeries mine = elim (Option-cases (write_submitted e (new_job e r s) s.db)) [
    | inl failed ↦ rw (failed, record_job) h
    | inr (db, written) ↦
        rw (written, record_job) (put-All (InSeries s.settings) (new_job e r s) s.jobs mine h)
  ]

  admit_new-HasSeries : has_series s.settings (new_job e r s) ≡ true → Kept (admit_new e r s)
  unfolding admit_new
  admit_new-HasSeries mine =
      if_ind Kept (owner_full r.owner s) (λ _. h)
        λ _.
          if_ind Kept (leb s.capacity (active_count s.jobs)) (λ _. h)
            λ _.
              if_ind Kept (leb s.result_capacity (length s.jobs - active_count s.jobs)) (λ _. h)
                λ _. record_job-HasSeries (ground (arith, mine))

  answer-HasSeries : (i : String) → Kept (answer i s)
  unfolding answer
  answer-HasSeries i = elim (Option-cases (find i s.jobs)) [
    | inl absent ↦ rw (absent, answer) h
    | inr (j, found) ↦ rw (found, answer) h
  ]

  accept_open-HasSeries : has_series s.settings (new_job e r s) ≡ true → Kept (accept_open e r s)
  unfolding accept_open
  accept_open-HasSeries mine = elim (Option-cases (known r.owner r.key s.keys)) [
    | inl first ↦ rw (first, accept_open) (admit_new-HasSeries mine)
    | inr (i, again) ↦ rw (again, accept_open) (answer-HasSeries i)
  ]

count_refusal-HasSeries : (o : String) (p : Reply × Store) → Kept p → Kept (count_refusal o p)
unfolding count_refusal
count_refusal-HasSeries o (accepted j, t) h = h
count_refusal-HasSeries o (refused (capacity_error n), t) h = h
count_refusal-HasSeries o (refused value_error, t) h = h
count_refusal-HasSeries o (refused overflow_error, t) h = h
count_refusal-HasSeries o (refused draining_error, t) h = h
count_refusal-HasSeries o (refused key_error, t) h = h

checked-series :
    (e : Env) (r : Request) (s : Store)
    → IsChecked s.settings r
    → has_series s.settings (new_job e r s) ≡ true
unfolding has_series new_job
checked-series e r s c = ground (arith, c.known_owner, c.known_task)

submit-HasSeries :
    (e : Env) (r : Request) (s : Store)
    → HasSeries s.book
    → IsChecked s.settings r
    → Kept (submit_valid e r s)
unfolding submit_valid accept
submit-HasSeries e r s h c =
    let same : (expire e s).settings ≡ s.settings = (Steps-Within (expire-Steps e s)).settings_eq in
    let left : HasSeries (expire e s).book = Steps-HasSeries (expire-Steps e s) h in
    let mine : has_series (expire e s).settings (new_job e r (expire e s)) ≡ true =
      checked-series e r (expire e s) (subst (λ t. IsChecked t r) (sym same) c) in
    count_refusal-HasSeries r.owner (accept e r s) (
      if_ind Kept s.draining (λ _. h)
        λ _. if_ind Kept s.stopping (λ _. h) λ _. accept_open-HasSeries e r (expire e s) left mine)

Move-HasSeries : {s t : Store} → Move s t → HasSeries s.book → HasSeries t.book
unfolding hear die
Move-HasSeries {s} (submits e task payload timeout_ms key o fresh) h =
    submit_ind Kept e task payload timeout_ms key o s h h (λ r _ c. submit-HasSeries e r s h c)
Move-HasSeries {s} (gets e i o) h = Steps-HasSeries (get-Steps e i o s) h
Move-HasSeries {s} (cancels e i o) h = Steps-HasSeries (cancel-Steps e i o s) h
Move-HasSeries {s} (drains e) h = Steps-HasSeries (drain-Steps e s) h
Move-HasSeries {s} (coordinates e) h = Steps-HasSeries (coordinate-Steps e s) h
Move-HasSeries {s} (sends e w lost) h = Steps-HasSeries (sent-Steps e w lost s) h
Move-HasSeries {s} (starts e w) h = Steps-HasSeries (add_child-Steps e w s) h
Move-HasSeries {s} (reaps e) h = Steps-HasSeries (reap-Steps e s) h
Move-HasSeries (hears w m) h = h
Move-HasSeries (dies w) h = h

-- In every history, a job that is yet to end has one of the configured owners and one of the known
-- tasks, if it was so at the start: its end is counted in series that exist.
Reach-HasSeries : {s t : Store} → Reach s t → HasSeries s.book → HasSeries t.book
Reach-HasSeries start h = h
Reach-HasSeries (then_ r m) h = Move-HasSeries m (Reach-HasSeries r h)
