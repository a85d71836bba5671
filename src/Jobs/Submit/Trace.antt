-- ===== src/Jobs/Submit/Trace.antt =====
-- Admission and expiry, seen as steps of the job table.
use php_python_ai_bridge.Base.{
  ℕ, ◌-◌, ◌≡◌, refl, true, false, not, inl, inr, List, [], ◌∷◌, ◌++◌, none, String, arith,
  Option-cases, Bool-cases, if_ind, string_eq, leb, filter, append_assoc, is_some, length,
}
use php_python_ai_bridge.Jobs.Types.{Job, Env, Store, Book, unfinished}
use php_python_ai_bridge.Jobs.Table.{find, put}
use php_python_ai_bridge.Jobs.Db.{write_submitted}
use php_python_ai_bridge.Jobs.Steps.{
  Steps, forget, admit, idle, here, Steps-trans, Steps-one, Steps-grows, drop_key, known, key_of,
}
use php_python_ai_bridge.Jobs.Finish.Trace.{Traced}
use php_python_ai_bridge.Jobs.Submit.{
  Request, Reply, accepted, refused, is_expired, expire, new_job, record_job, admit_new, answer,
  accept_open, accept, count_refusal, submit_valid, owner_full, delete_expired, drop_keys,
  active_count, value_error, overflow_error, draining_error, key_error, capacity_error,
}

pub put_new : (j : Job) (js : List Job) → find j.id js ≡ none → put j js ≡ js ++ (j ∷ [])
unfolding find put
put_new j [] h = refl
put_new j (k ∷ ks) h = ground (arith, put_new j ks)

module _ (e : Env) where
  expired_finished :
      (retention : ℕ) (j : Job) → is_expired e retention j ≡ true → is_some j.finished ≡ true
  unfolding is_expired
  expired_finished retention j h = ground arith

  -- The expired jobs are forgotten one by one, from the front.
  forget-Steps :
      (b : Book) (retention : ℕ) (kept js : List Job)
      → (keys : List ((String × String) × String))
      → Steps false
          (record b { jobs = kept ++ js; keys = keys })
          (record b {
            jobs = kept ++ filter (λ j. not (is_expired e retention j)) js;
            keys = drop_keys (filter (is_expired e retention) js) keys;
          })
  unfolding drop_keys
  forget-Steps b retention kept [] keys = here
  forget-Steps b retention kept (j ∷ js) keys = elim (Bool-cases (is_expired e retention j)) [
    | inl old ↦ rw old (
        Steps-trans
          (Steps-one
            (forget kept j js refl refl (expired_finished retention j old) refl refl refl refl))
          (forget-Steps b retention kept js (drop_key j keys)))
    | inr young ↦ rw young (
        rw (append_assoc kept (j ∷ []) js, append_assoc kept (j ∷ []) _) at
          (forget-Steps b retention (kept ++ (j ∷ [])) js keys))
  ]

  pub delete_expired-book : (js : List Job) (s : Store) → (delete_expired e js s).book ≡ s.book
  unfolding delete_expired
  delete_expired-book [] s = refl
  delete_expired-book (j ∷ js) s = refl

  pub expire-Steps : (s : Store) → Traced s (expire e s)
  unfolding expire
  expire-Steps s =
      rw (delete_expired-book (filter (is_expired e s.retention) s.jobs) _)
        (forget-Steps s.book s.retention [] s.jobs s.keys)

abbrev Grown : Store → Reply × Store → Type 0
Grown s r = Steps true s.book r.1.book

module _ (e : Env) where
  record_job-Steps :
      (j : Job) (s : Store)
      → find j.id s.jobs ≡ none
      → unfinished j ≡ true
      → j.finished ≡ none
      → key_of j s.keys ≡ none
      → Grown s (record_job e j s)
  unfolding record_job
  record_job-Steps j s fresh open_j no_end first = elim (Option-cases (write_submitted e j s.db)) [
    | inl failed ↦ rw (failed, record_job) here
    | inr (db, written) ↦
        rw (written, record_job)
          (Steps-one
            (admit j refl (put_new j s.jobs fresh) fresh open_j no_end refl refl refl first refl))
  ]

  admit_new-Steps :
      (r : Request) (s : Store)
      → find (new_job e r s).id s.jobs ≡ none
      → known r.owner r.key s.keys ≡ none
      → Grown s (admit_new e r s)
  unfolding admit_new new_job
  admit_new-Steps r s fresh first =
      if_ind (Grown s) (owner_full r.owner s) (λ _. here)
        λ _.
          if_ind (Grown s) (leb s.capacity (active_count s.jobs)) (λ _. here)
            λ _.
              if_ind (Grown s) (leb s.result_capacity (length s.jobs - active_count s.jobs))
                (λ _. here) λ _. record_job-Steps (new_job e r s) s fresh refl refl first

  answer-Steps : (i : String) (s : Store) → Grown s (answer i s)
  unfolding answer
  answer-Steps i s = elim (Option-cases (find i s.jobs)) [
    | inl absent ↦ rw (absent, answer) here
    | inr (j, found) ↦ rw (found, answer) here
  ]

  accept_open-Steps :
      (r : Request) (s : Store)
      → find (new_job e r s).id s.jobs ≡ none
      → Grown s (accept_open e r s)
  unfolding accept_open
  accept_open-Steps r s fresh = elim (Option-cases (known r.owner r.key s.keys)) [
    | inl first ↦ rw (first, accept_open) (admit_new-Steps r s fresh first)
    | inr (i, again) ↦ rw (again, accept_open) (answer-Steps i s)
  ]

  count_refusal-Steps :
      (o : String) (s : Store) (r : Reply × Store) → Grown s r → Grown s (count_refusal o r)
  unfolding count_refusal
  count_refusal-Steps o s (accepted j, t) h = h
  count_refusal-Steps o s (refused (capacity_error n), t) h = Steps-trans h (
      Steps-one (
        idle refl (record {
          same_ended = refl;
          same_submitted = refl;
          same_settings = refl;
          same_keys = refl;
        })))
  count_refusal-Steps o s (refused value_error, t) h = h
  count_refusal-Steps o s (refused overflow_error, t) h = h
  count_refusal-Steps o s (refused draining_error, t) h = h
  count_refusal-Steps o s (refused key_error, t) h = h

  -- A submission adds at most its own job.
  pub submit-Steps :
      (r : Request) (s : Store)
      → find (new_job e r (expire e s)).id (expire e s).jobs ≡ none
      → Grown s (submit_valid e r s)
  unfolding submit_valid accept
  submit-Steps r s fresh = count_refusal-Steps r.owner s (accept e r s) (
      if_ind (Grown s) s.draining (λ _. here)
        λ _.
          if_ind (Grown s) s.stopping (λ _. here)
            λ _.
              Steps-trans (Steps-grows (expire-Steps e s)) (accept_open-Steps r (expire e s) fresh))
