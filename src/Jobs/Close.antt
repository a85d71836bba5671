-- ===== src/Jobs/Close.antt =====
-- `close`: the jobs that it ends, and the children that it takes out of the pool.
pub mod Listed
use php_python_ai_bridge.Base.{
  ℕ, zero, suc, ◌+◌, ◌≡◌, ◌≤◌, refl, sym, Bool, true, false, not, ◌||◌, ◌&&◌, inl, inr, List, [],
  ◌∷◌, Option, none, some, String, arith, Bool-cases, Option-cases, ap, ◌∙◌, subst, All, All-map2,
  All-of_count-zero, count, any, filter, length, map, remove, ◌==◌, string_eq, string_beq_iff,
  nat_eq, nat_beq_iff, if◌then◌else◌, if_true, if_false,
}
use php_python_ai_bridge.Jobs.Types.{
  Job, Book, Store, Env, Status, ErrorCode, unfinished, cancelled, is_terminal,
}
use php_python_ai_bridge.Jobs.Table.{find, put, find-id}
use php_python_ai_bridge.Jobs.Finish.{
  ids, for_each, abort, finish, finish_job, end_book, end_job, retire, retire_now, requeue,
  requeue_job, hold_back, take_out, release_child,
}
use php_python_ai_bridge.Jobs.Finish.Trace.{release_child-book}
use php_python_ai_bridge.Jobs.Submit.{active_count}
use php_python_ai_bridge.Jobs.Service.{close, for_workers}
use php_python_ai_bridge.Jobs.Invariants.{IsSound, count-find}
use php_python_ai_bridge.Jobs.Idempotency.{All-find}
use php_python_ai_bridge.Jobs.Close.Listed.{
  IsListed, unlist, put-IsListed, put-count, list_more, filter-IsListed, length-filter,
  count-unlisted, unlist_settled,
}

module _ (e : Env) where
  abbrev pub Once : Store → Type 0
  Once s = (x : String) → count (λ k. k.id == x) s.jobs ≤ 1

  module _ (p : Job → Bool) (st : Status) (code : Option ErrorCode) where
    abort-jobs :
        (i : String) (s : Store) (j : Job)
        → find i s.jobs ≡ some j
        → (abort e i st code s).jobs ≡ put (end_job e j st none code) s.jobs
    unfolding abort finish finish_job end_book
    abort-jobs i s j found =
        let same : (release_child e i s).book ≡ s.book = release_child-book e i s in
        let still : find i (release_child e i s).jobs ≡ some j =
          ap (λ (b : Book). find i b.jobs) same ∙ found in
        rw (still, finish) (ap (λ (b : Book). put (end_job e j st none code) b.jobs) same)

    abort-absent :
        (i : String) (s : Store) → find i s.jobs ≡ none → (abort e i st code s).jobs ≡ s.jobs
    unfolding abort finish
    abort-absent i s absent =
        let same : (release_child e i s).book ≡ s.book = release_child-book e i s in
        let still : find i (release_child e i s).jobs ≡ none =
          ap (λ (b : Book). find i b.jobs) same ∙ absent in
        rw (still, finish) (ap (λ (b : Book). b.jobs) same)

    pub abort-IsListed :
        (i : String) (is : List String) (s : Store)
        → Once s
        → ((j : Job) → p (end_job e j st none code) ≡ false)
        → All (IsListed p (i ∷ is)) s.jobs
        → Once (abort e i st code s) × All (IsListed p is) (abort e i st code s).jobs
    unfolding end_job
    abort-IsListed i is s once settles listed = elim (Option-cases (find i s.jobs)) [
      | inl absent ↦
          let same = abort-absent i s absent in
          (
            λ x. subst (λ js. count (λ k. k.id == x) js ≤ 1) (sym same) (once x),
            subst (All (IsListed p is)) (sym same)
                (unlist p i is s.jobs (count-find i s.jobs absent) listed),
          )
      | inr (j, found) ↦
          let ended = end_job e j st none code in
          let named : ended.id ≡ i = find-id i s.jobs j found in
          let now = abort-jobs i s j found in
          let at : find ended.id s.jobs ≡ some j = ap (λ x. find x s.jobs) named ∙ found in
          (
            λ x.
                subst (λ js. count (λ k. k.id == x) js ≤ 1) (sym now)
                  (subst (λ n. n ≤ 1) (sym (put-count x ended s.jobs j at)) (once x)),
            subst (All (IsListed p is)) (sym now)
                (put-IsListed p i is s.jobs ended (once i) named (settles j) listed),
          )
    ]

  abbrev cancel_id : String → Store → Store
  cancel_id i = abort e i cancelled none

  abort_each :
      (is : List String) (s : Store)
      → Once s
      → All (IsListed unfinished is) s.jobs
      → All (IsListed unfinished []) (for_each is cancel_id s).jobs
  unfolding for_each end_job
  abort_each [] s once listed = listed
  abort_each (i ∷ is) s once listed =
      let (still, fewer) =
        abort-IsListed unfinished cancelled none i is s once (λ j. refl) listed in
      abort_each is (cancel_id i s) still fewer

  -- Where every job has ended, retiring a child touches no job.
  requeue_ended :
      (i : Option String) (s : Store) → All (IsListed unfinished []) s.jobs → requeue e i s ≡ s
  unfolding requeue requeue_job
  requeue_ended none s h = refl
  requeue_ended (some i) s h = elim (Option-cases (find i s.jobs)) [
    | inl absent ↦ rw (absent, requeue) refl
    | inr (j, found) ↦
        rw (found, requeue)
          (if_true (is_terminal j.status) _ _
            (ground (arith, All-find (IsListed unfinished []) i s.jobs j h found)))
  ]

  abbrev Left : Store → ℕ → Store → Type 0
  Left s w t = (t.jobs ≡ s.jobs) × (t.pool ≡ remove w s.pool)

  hold_back-rest :
      (ready : Bool) (s : Store)
      → ((hold_back e ready false s).jobs ≡ s.jobs) × ((hold_back e ready false s).pool ≡ s.pool)
  unfolding hold_back
  hold_back-rest true s = (refl, refl)
  hold_back-rest false s = (refl, refl)

  retire_now-Left :
      (w : ℕ) (stop : Bool) (s : Store)
      → All (IsListed unfinished []) s.jobs
      → ((retire_now e w stop false s).jobs ≡ s.jobs)
        × ((retire_now e w stop false s).pool ≡ s.pool)
  unfolding retire_now take_out
  retire_now-Left w stop s h =
      let held = hold_back e (s.workers w).ready false (take_out e w stop s) in
      let (jobs, pool) = hold_back-rest (s.workers w).ready (take_out e w stop s) in
      let same : requeue e (s.workers w).job_id held ≡ held =
        requeue_ended (s.workers w).job_id held
          (subst (All (IsListed unfinished [])) (sym jobs) h) in
      (ap (λ (t : Store). t.jobs) same ∙ jobs, ap (λ (t : Store). t.pool) same ∙ pool)

  retire-Left :
      (w : ℕ) (s : Store) → All (IsListed unfinished []) s.jobs → Left s w (retire e w true false s)
  unfolding retire
  retire-Left w s h = elim (Option-cases (s.workers w).retired_at) [
    | inl still ↦ rw (still, retire) (retire_now-Left w true _ h)
    | inr (t, gone) ↦ rw (gone, retire) (refl, refl)
  ]

  retire_each :
      (ws : List ℕ) (s : Store)
      → s.pool ≡ ws
      → All (IsListed unfinished []) s.jobs
      → (All (IsListed unfinished []) (for_workers ws (λ w. retire e w true false) s).jobs)
        × ((for_workers ws (λ w. retire e w true false) s).pool ≡ [])
  unfolding for_workers
  retire_each [] s at h = (h, at)
  retire_each (w ∷ ws) s at h =
      let (jobs, pool) = retire-Left w s h in
      retire_each ws (retire e w true false s)
        (pool ∙ ap (remove w) at ∙ if_true (w == w) _ _ ((nat_beq_iff w w).1 refl))
        (subst (All (IsListed unfinished [])) (sym jobs) h)

  -- Closing a sound store leaves no unfinished job and no child in the pool, and returns how many
  -- jobs were unfinished.
  pub close-active_count :
      (s : Store)
      → IsSound s.book
      → (active_count (close e s).1.jobs ≡ 0)
        × ((close e s).1.pool ≡ [])
        × ((close e s).0 ≡ active_count s.jobs)
  unfolding close
  close-active_count s sound =
      let shut = record s { stopping = true; db = none } in
      let ended = for_each (ids (filter unfinished s.jobs)) cancel_id shut in
      let (jobs, pool) = retire_each ended.pool ended refl (
        abort_each (ids (filter unfinished s.jobs)) shut sound.distinct
          (filter-IsListed unfinished s.jobs)) in
      (count-unlisted unfinished _ jobs, pool, length-filter s.jobs)
