-- ===== src/Jobs/Service/Trace.antt =====
-- Every critical section of the store, seen as steps of the job table.
use php_python_ai_bridge.Base.{
  ℕ, zero, suc, ◌+◌, ◌≡◌, refl, Bool, true, false, not, inl, inr, List, [], ◌∷◌, Option, none, some,
  String, arith, Option-cases, if_ind, string_eq, string_beq_iff, ap, ◌∙◌, leb, is_some, ◌&&◌,
}
use php_python_ai_bridge.Jobs.Types.{
  Job, Env, Store, is_terminal, is_queued, cancelled, failed, timed_out, service_restarted,
  deadline_exceeded,
}
use php_python_ai_bridge.Jobs.Table.{find, find-id}
use php_python_ai_bridge.Jobs.Steps.{here, Steps-trans}
use php_python_ai_bridge.Jobs.Finish.{for_each, ids}
use php_python_ai_bridge.Jobs.Finish.Trace.{
  Traced, for_each-Steps, abort-Steps, retire-Steps, start_failed-Steps,
}
use php_python_ai_bridge.Jobs.Listen.{drain_child}
use php_python_ai_bridge.Jobs.Listen.Trace.{drain_child-Steps}
use php_python_ai_bridge.Jobs.Submit.{expire}
use php_python_ai_bridge.Jobs.Submit.Trace.{expire-Steps}
use php_python_ai_bridge.Jobs.Dispatch.{
  Send, Queue, attach, attach_to, dispatch_loop, dispatch, serve, sent, least, pop_queue,
}
use php_python_ai_bridge.Jobs.Service.{
  owned, get, cancel, cancel_job, for_workers, restart_job, drain, check_child, check_open,
  check_job, ready_limit, coordinate, add_child, kill_late, grace, reap_child, reap,
}

pub for_workers-Steps :
    (f : ℕ → Store → Store)
    → ((w : ℕ) (s : Store) → Traced s (f w s))
    → (ws : List ℕ) (s : Store) → Traced s (for_workers ws f s)
unfolding for_workers
for_workers-Steps f h [] s = here
for_workers-Steps f h (w ∷ ws) s = Steps-trans (h w s) (for_workers-Steps f h ws (f w s))

owned_lem :
    (i o : String) (s : Store) (j : Job)
    → owned i o s ≡ some j
    → (find i s.jobs ≡ some j) × (j.owner ≡ o)
unfolding owned
owned_lem i o s j h = ground (arith, string_beq_iff j.owner o)

module _ (e : Env) where
  pub get-Steps : (i o : String) (s : Store) → Traced s (get e i o s).1
  unfolding get
  get-Steps i o s = expire-Steps e s

  cancel_job-Steps : (i o : String) (s : Store) → Traced s (cancel_job e (owned i o s) s)
  unfolding cancel_job
  cancel_job-Steps i o s = elim (Option-cases (owned i o s)) [
    | inl absent ↦ rw (absent, cancel_job) here
    | inr (j, mine) ↦
        let (found, _) = owned_lem i o s j mine in
        rw (mine, cancel_job)
          (if_ind (Traced s) (is_terminal j.status) (λ _. here)
            λ open_j.
              abort-Steps e j.id j cancelled none s
                (ap (λ k. find k s.jobs) (find-id i s.jobs j found) ∙ found) (ground arith) refl)
  ]

  pub cancel-Steps : (i o : String) (s : Store) → Traced s (cancel e i o s).1
  unfolding cancel
  cancel-Steps i o s = Steps-trans (expire-Steps e s) (cancel_job-Steps i o (expire e s))

  restart_job-Steps : (i : String) (s : Store) → Traced s (restart_job e i s)
  unfolding restart_job
  restart_job-Steps i s = elim (Option-cases (find i s.jobs)) [
    | inl absent ↦ rw (absent, restart_job) here
    | inr (j, found) ↦
        rw (found, restart_job)
          (if_ind (Traced s) (is_queued j.status)
            (λ h. abort-Steps e i j failed (some service_restarted) s found (ground arith) refl)
            (λ _. here))
  ]

  pub drain-Steps : (s : Store) → Traced s (drain e s)
  unfolding drain
  drain-Steps s =
      Steps-trans (for_workers-Steps (drain_child e) (drain_child-Steps e) s.pool _)
        (for_each-Steps e (restart_job e) restart_job-Steps _ _)

  check_child-Steps : (w : ℕ) (s : Store) → Traced s (check_child e w s)
  unfolding check_child
  check_child-Steps w s =
      let heard = drain_child-Steps e w s in
      let t : Store = drain_child e w s in
      if_ind (Traced s) (not (is_some (t.workers w).retired_at) && not (t.workers w).alive)
        (λ _.
          Steps-trans heard (Steps-trans (drain_child-Steps e w t) (retire-Steps e w false true _)))
        (λ _.
          if_ind (Traced s)
            (not (t.workers w).ready && leb ((t.workers w).started_at + ready_limit) e.now)
            (λ _. Steps-trans heard (retire-Steps e w false false t)) (λ _. heard))

  check_open-Steps :
      (i : String) (j : Job) (s : Store) → find i s.jobs ≡ some j → Traced s (check_open e i j s)
  unfolding check_open
  check_open-Steps i j s found =
      if_ind (Traced s) (is_terminal j.status) (λ _. here)
        λ open_j.
          if_ind (Traced s) (leb j.deadline e.now)
            (λ _. abort-Steps e i j timed_out (some deadline_exceeded) s found (ground arith) refl)
            λ _.
              if_ind (Traced s) (is_queued j.status && s.draining)
                (λ _. abort-Steps e i j failed (some service_restarted) s found (ground arith) refl)
                (λ _. here)

  check_job-Steps : (i : String) (s : Store) → Traced s (check_job e i s)
  unfolding check_job
  check_job-Steps i s = elim (Option-cases (find i s.jobs)) [
    | inl absent ↦ rw (absent, check_job) here
    | inr (j, found) ↦ rw (found, check_job) (check_open-Steps i j s found)
  ]

attach-book :
    (j : Job) (s : Store) (x : Send) (t : Store) → attach j s ≡ some (x, t) → t.book ≡ s.book
unfolding attach attach_to
attach-book j s x t h = ground arith

dispatch_loop-book :
    (fuel : ℕ) (qs : List Queue) (s : Store) → (dispatch_loop fuel qs s).1.book ≡ s.book
unfolding dispatch_loop serve
dispatch_loop-book zero qs s = refl
dispatch_loop-book (suc fuel) [] s = refl
dispatch_loop-book (suc fuel) (q ∷ qs) s =
    elim (Option-cases (attach (least s.served q qs).first s)) [
      | inl none_idle ↦ rw (none_idle, dispatch_loop) refl
      | inr ((x, t), given) ↦
          rw (given, dispatch_loop)
            (dispatch_loop-book fuel (pop_queue (least s.served q qs).owner (q ∷ qs))
                (serve (least s.served q qs).owner t)
              ∙ attach-book (least s.served q qs).first s x t given)
    ]

dispatch-book : (waiting : List Job) (s : Store) → (dispatch waiting s).1.book ≡ s.book
unfolding dispatch
dispatch-book waiting s = dispatch_loop-book _ _ s

module _ (e : Env) where
  pub coordinate-Steps : (s : Store) → Traced s (coordinate e s).1
  unfolding coordinate
  coordinate-Steps s =
      let listened : Store = for_workers s.pool (check_child e) (expire e s) in
      let checked : Store = for_each (ids listened.jobs) (check_job e) listened in
      rw (dispatch-book _ checked) (
        Steps-trans (expire-Steps e s) (
          Steps-trans (for_workers-Steps (check_child e) (check_child-Steps e) s.pool _)
            (for_each-Steps e (check_job e) (check_job-Steps e) _ listened)))

  pub sent-Steps : (w : ℕ) (lost : Bool) (s : Store) → Traced s (sent e w lost s)
  unfolding sent
  sent-Steps w lost s =
      if_ind (Traced s) (is_some (s.workers w).retired_at) (λ _. here)
        λ _. if_ind (Traced s) lost (λ _. retire-Steps e w false false _) (λ _. here)

  pub add_child-Steps : (w : Option ℕ) (s : Store) → Traced s (add_child e w s)
  unfolding add_child
  add_child-Steps none s = start_failed-Steps e s
  add_child-Steps (some w) s = if_ind (Traced s) s.stopping (λ _. here) (λ _. here)

  kill_late-Steps : (w : ℕ) (since : Option ℕ) (s : Store) → Traced s (kill_late e w since s)
  unfolding kill_late
  kill_late-Steps w none s = here
  kill_late-Steps w (some t) s =
      if_ind (Traced s) (not (s.workers w).killed && leb (t + grace) e.now) (λ _. here) (λ _. here)

  reap_child-Steps : (w : ℕ) (s : Store) → Traced s (reap_child e w s)
  unfolding reap_child
  reap_child-Steps w s =
      if_ind (Traced s) (s.workers w).alive (λ _. kill_late-Steps w (s.workers w).retired_at s)
        (λ _. here)

  pub reap-Steps : (s : Store) → Traced s (reap e s)
  unfolding reap
  reap-Steps s = for_workers-Steps (reap_child e) reap_child-Steps s.retiring s
