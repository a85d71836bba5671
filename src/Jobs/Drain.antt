-- ===== src/Jobs/Drain.antt =====
-- `drain`: the jobs that it leaves.
use php_python_ai_bridge.Base.{
  ◌≡◌, refl, sym, Bool, true, inl, inr, List, [], ◌∷◌, some, String, Bool-cases, Option-cases, All,
  count, subst, if_true, if_false, string_eq,
}
use php_python_ai_bridge.Jobs.Types.{Job, Store, Env, failed, service_restarted, is_queued}
use php_python_ai_bridge.Jobs.Table.{find}
use php_python_ai_bridge.Jobs.Finish.{ids, for_each, end_job}
use php_python_ai_bridge.Jobs.Listen.{drain_child}
use php_python_ai_bridge.Jobs.Listen.Trace.{drain_child-Steps}
use php_python_ai_bridge.Jobs.Service.{drain, restart_job, for_workers}
use php_python_ai_bridge.Jobs.Service.Trace.{for_workers-Steps}
use php_python_ai_bridge.Jobs.Invariants.{IsSound, Steps-IsSound, count-find}
use php_python_ai_bridge.Jobs.Close.{Once, abort-IsListed}
use php_python_ai_bridge.Jobs.Close.Listed.{
  IsListed, unlist, unlist_settled, ids-IsListed, count-unlisted,
}

abbrev waits_for_child : Job → Bool
waits_for_child j = is_queued j.status

module _ (e : Env) where
  abbrev Fewer : List String → Store → Type 0
  Fewer is t = Once e t × All (IsListed waits_for_child is) t.jobs

  restart_job-Fewer :
      (i : String) (is : List String) (s : Store)
      → Once e s
      → All (IsListed waits_for_child (i ∷ is)) s.jobs
      → Fewer is (restart_job e i s)
  unfolding restart_job end_job
  restart_job-Fewer i is s once listed = elim (Option-cases (find i s.jobs)) [
    | inl absent ↦
        rw (absent, restart_job)
          (once, unlist waits_for_child i is s.jobs (count-find i s.jobs absent) listed)
    | inr (j, found) ↦
        rw (found, restart_job)
          (elim (Bool-cases (is_queued j.status)) [
            | inl queued_j ↦ subst (Fewer is) (sym (if_true (is_queued j.status) _ _ queued_j)) (
                abort-IsListed e waits_for_child failed (some service_restarted) i is s once
                  (λ k. refl) listed)
            | inr settled ↦
                subst (Fewer is) (sym (if_false (is_queued j.status) _ _ settled))
                  (once, unlist_settled waits_for_child i is s.jobs j (once i) found settled listed)
          ])
  ]

  restart_each :
      (is : List String) (s : Store)
      → Once e s
      → All (IsListed waits_for_child is) s.jobs
      → All (IsListed waits_for_child []) (for_each is (restart_job e) s).jobs
  unfolding for_each
  restart_each [] s once listed = listed
  restart_each (i ∷ is) s once listed =
      let (still, fewer) = restart_job-Fewer i is s once listed in
      restart_each is (restart_job e i s) still fewer

  -- When a sound store has been drained, no job is queued any more: each one is running or has ended.
  drain-count : (s : Store) → IsSound s.book → count waits_for_child (drain e s).jobs ≡ 0
  unfolding drain
  drain-count s sound =
      let listened = for_workers s.pool (drain_child e) (record s { draining = true }) in
      let still : IsSound listened.book =
        Steps-IsSound (for_workers-Steps (drain_child e) (λ w t. drain_child-Steps e w t) s.pool _)
          sound in
      count-unlisted waits_for_child _ (
        restart_each (ids listened.jobs) listened still.distinct
          (ids-IsListed waits_for_child listened.jobs))
