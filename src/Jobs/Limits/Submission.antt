-- ===== src/Jobs/Limits/Submission.antt =====
-- The limits that `_accept` checks, in histories of the store.
use php_python_ai_bridge.Base.{
  ℕ, ◌+◌, ◌-◌, ◌≡◌, ◌≤◌, ◌<◌, refl, sym, false, inl, inr, [], ◌∷◌, ◌++◌, none, some, String, arith,
  Bool-cases, Option-cases, ◌==◌, string_eq, ap, ◌∙◌, length, count-append, length-append,
  count-le-length, string_beq_iff, if_ind, leb, subst,
}
use php_python_ai_bridge.Jobs.Types.{Book, Store, Env, Settings, unfinished}
use php_python_ai_bridge.Jobs.Table.{find}
use php_python_ai_bridge.Jobs.Steps.{known}
use php_python_ai_bridge.Jobs.Db.{write_submitted}
use php_python_ai_bridge.Jobs.Submit.{
  active_count, owner_count, Request, Reply, accepted, refused, capacity_error, value_error,
  overflow_error, draining_error, key_error, admit_new, record_job, new_job, owner_full, expire,
  accept, accept_open, answer, count_refusal, submit_valid,
}
use php_python_ai_bridge.Jobs.Submit.Trace.{put_new, expire-Steps}
use php_python_ai_bridge.Jobs.Service.Trace.{
  get-Steps, cancel-Steps, drain-Steps, coordinate-Steps, sent-Steps, add_child-Steps, reap-Steps,
}
use php_python_ai_bridge.Jobs.Reach.{
  Reach, start, then_, Move, submits, gets, cancels, drains, coordinates, sends, starts, reaps,
  hears, dies, hear, die,
}
use php_python_ai_bridge.Jobs.Request.Laws.{submit_ind}
use php_python_ai_bridge.Jobs.Limits.{Within, Steps-Within}

-- At most `capacity` jobs are unfinished, fewer than `capacity + result_capacity` jobs are held,
-- and no owner holds more than its cap.
pub record IsLimited (b : Book) : Type 0 where
  pub active_limit : active_count b.jobs ≤ b.capacity
  pub total_limit : length b.jobs < b.capacity + b.result_capacity
  pub owner_limit :
      (o : String) (cap : ℕ) → b.owner_capacity ≡ some cap → owner_count o b.jobs ≤ cap

Within-IsLimited : {b c : Book} → Within b c → IsLimited b → IsLimited c
Within-IsLimited {b} {c} w h = record {
  active_limit =
      omega (arith, w.active_le, h.active_limit, ap (λ (t : Settings). t.capacity) w.settings_eq);
  total_limit = omega (
    arith,
    w.total_le,
    h.total_limit,
    ap (λ (t : Settings). t.capacity) w.settings_eq,
    ap (λ (t : Settings). t.result_capacity) w.settings_eq,
  );
  owner_limit = λ o cap set.
      let old : owner_count o b.jobs ≤ cap =
        h.owner_limit o cap (ap (λ (t : Settings). t.owner_capacity) (sym w.settings_eq) ∙ set) in
      omega (arith, w.owner_le o, old);
}

abbrev Limited : Reply × Store → Type 0
Limited r = IsLimited r.1.book

module _ (e : Env) (r : Request) (s : Store) (h : IsLimited s.book) where
  owner_room :
      owner_full r.owner s ≡ false
      → (cap : ℕ) → s.owner_capacity ≡ some cap
      → owner_count r.owner s.jobs < cap
  unfolding owner_full
  owner_room free cap set = ground arith

  added-IsLimited :
      (b : Book)
      → b.settings ≡ s.settings
      → b.jobs ≡ s.jobs ++ (new_job e r s ∷ [])
      → owner_full r.owner s ≡ false
      → leb s.capacity (active_count s.jobs) ≡ false
      → leb s.result_capacity (length s.jobs - active_count s.jobs) ≡ false
      → IsLimited b
  unfolding new_job
  added-IsLimited b kept p owner_free active_free results_free = record {
    active_limit = ground (
      arith,
      active_free,
      ap active_count p,
      count-append unfinished s.jobs (new_job e r s ∷ []),
      ap (λ (t : Settings). t.capacity) kept,
    );
    total_limit = ground (
      arith,
      active_free,
      results_free,
      ap (length {0}) p,
      length-append s.jobs (new_job e r s ∷ []),
      count-le-length unfinished s.jobs,
      ap (λ (t : Settings). t.capacity) kept,
      ap (λ (t : Settings). t.result_capacity) kept,
    );
    owner_limit = λ o cap set.
        let was : s.owner_capacity ≡ some cap =
          ap (λ (t : Settings). t.owner_capacity) (sym kept) ∙ set in
        elim (Bool-cases (r.owner == o)) [
          | inl mine ↦
              let same : r.owner ≡ o = (string_beq_iff r.owner o).0 mine in
              ground (
                arith,
                ap (owner_count o) p,
                count-append (λ k. k.owner == o) s.jobs (new_job e r s ∷ []),
                subst (λ x. owner_count x s.jobs < cap) same (owner_room owner_free cap was),
              )
          | inr other ↦ ground (
            arith,
            other,
            ap (owner_count o) p,
            count-append (λ k. k.owner == o) s.jobs (new_job e r s ∷ []),
            h.owner_limit o cap was,
          )
        ];
  }

  record_job-IsLimited :
      find (new_job e r s).id s.jobs ≡ none
      → owner_full r.owner s ≡ false
      → leb s.capacity (active_count s.jobs) ≡ false
      → leb s.result_capacity (length s.jobs - active_count s.jobs) ≡ false
      → Limited (record_job e (new_job e r s) s)
  unfolding record_job
  record_job-IsLimited fresh owner_free active_free results_free =
      elim (Option-cases (write_submitted e (new_job e r s) s.db)) [
        | inl failed ↦ rw (failed, record_job) h
        | inr (db, written) ↦
            rw (written, record_job)
              (added-IsLimited _ refl (put_new (new_job e r s) s.jobs fresh) owner_free active_free
                results_free)
      ]

  admit_new-IsLimited : find (new_job e r s).id s.jobs ≡ none → Limited (admit_new e r s)
  unfolding admit_new
  admit_new-IsLimited fresh =
      if_ind Limited (owner_full r.owner s) (λ _. h)
        λ owner_free.
          if_ind Limited (leb s.capacity (active_count s.jobs)) (λ _. h)
            λ active_free.
              if_ind Limited (leb s.result_capacity (length s.jobs - active_count s.jobs)) (λ _. h)
                λ results_free. record_job-IsLimited fresh owner_free active_free results_free

  answer-IsLimited : (i : String) → Limited (answer i s)
  unfolding answer
  answer-IsLimited i = elim (Option-cases (find i s.jobs)) [
    | inl absent ↦ rw (absent, answer) h
    | inr (j, found) ↦ rw (found, answer) h
  ]

  accept_open-IsLimited : find (new_job e r s).id s.jobs ≡ none → Limited (accept_open e r s)
  unfolding accept_open
  accept_open-IsLimited fresh = elim (Option-cases (known r.owner r.key s.keys)) [
    | inl first ↦ rw (first, accept_open) (admit_new-IsLimited fresh)
    | inr (i, again) ↦ rw (again, accept_open) (answer-IsLimited i)
  ]

count_refusal-IsLimited : (o : String) (r : Reply × Store) → Limited r → Limited (count_refusal o r)
unfolding count_refusal
count_refusal-IsLimited o (accepted j, t) h = h
count_refusal-IsLimited o (refused (capacity_error n), t) h = record {
  active_limit = h.active_limit;
  total_limit = h.total_limit;
  owner_limit = h.owner_limit;
}
count_refusal-IsLimited o (refused value_error, t) h = h
count_refusal-IsLimited o (refused overflow_error, t) h = h
count_refusal-IsLimited o (refused draining_error, t) h = h
count_refusal-IsLimited o (refused key_error, t) h = h

submit-IsLimited :
    (e : Env) (r : Request) (s : Store)
    → find (new_job e r (expire e s)).id (expire e s).jobs ≡ none
    → IsLimited s.book
    → Limited (submit_valid e r s)
unfolding submit_valid accept
submit-IsLimited e r s fresh h =
    let left : IsLimited (expire e s).book = Within-IsLimited (Steps-Within (expire-Steps e s)) h in
    count_refusal-IsLimited r.owner (accept e r s) (
      if_ind Limited s.draining (λ _. h)
        λ _.
          if_ind Limited s.stopping (λ _. h) λ _. accept_open-IsLimited e r (expire e s) left fresh)

Move-IsLimited : {s t : Store} → Move s t → IsLimited s.book → IsLimited t.book
unfolding hear die new_job
Move-IsLimited {s} (submits e task payload timeout_ms key o fresh) h =
    submit_ind Limited e task payload timeout_ms key o s h h
      (λ r _ _. submit-IsLimited e r s fresh h)
Move-IsLimited {s} (gets e i o) h = Within-IsLimited (Steps-Within (get-Steps e i o s)) h
Move-IsLimited {s} (cancels e i o) h = Within-IsLimited (Steps-Within (cancel-Steps e i o s)) h
Move-IsLimited {s} (drains e) h = Within-IsLimited (Steps-Within (drain-Steps e s)) h
Move-IsLimited {s} (coordinates e) h = Within-IsLimited (Steps-Within (coordinate-Steps e s)) h
Move-IsLimited {s} (sends e w lost) h = Within-IsLimited (Steps-Within (sent-Steps e w lost s)) h
Move-IsLimited {s} (starts e w) h = Within-IsLimited (Steps-Within (add_child-Steps e w s)) h
Move-IsLimited {s} (reaps e) h = Within-IsLimited (Steps-Within (reap-Steps e s)) h
Move-IsLimited (hears w m) h = h
Move-IsLimited (dies w) h = h

-- In every history that begins within the limits, at most `capacity` jobs are unfinished, fewer
-- than `capacity + result_capacity` jobs are held in all, and no owner holds more than its cap.
pub Reach-IsLimited : {s t : Store} → Reach s t → IsLimited s.book → IsLimited t.book
Reach-IsLimited start h = h
Reach-IsLimited (then_ r m) h = Move-IsLimited m (Reach-IsLimited r h)
