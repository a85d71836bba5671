-- ===== src/Jobs/Dispatch/Laws.antt =====
-- `_dispatch` and `_attach`: the choice of an owner and of a child.
use php_python_ai_bridge.Base.{
  ℕ, zero, suc, ◌+◌, ◌≡◌, ◌≤◌, refl, Bool, true, false, inl, inr, ◌⊎◌, List, [], ◌∷◌, none, some,
  String, arith, length, count, Option, All, Option-cases, ◌∙◌, find_first, string_eq, nat_eq,
  nat_beq_iff,
}
use native.Mathlib.Nat.{add-zero}
use php_python_ai_bridge.Json.{Value}
use php_python_ai_bridge.Jobs.Types.{Job, Store}
use php_python_ai_bridge.Jobs.Finish.{set_worker}
use php_python_ai_bridge.Jobs.Dispatch.{
  Send, Queue, is_idle, idle_child, attach, attach_to, enqueue_all, turn, least, pop_queue, serve,
  dispatch_loop, dispatch,
}
use php_python_ai_bridge.Jobs.Dispatch.Queues.{
  AreOneEach, counted, of_job, of_send, enqueue_all-AreOneEach, pop_queue-AreOneEach, least-IsIn,
  counted-enqueue_all, counted-pop_queue,
}

abbrev pub IsLeast : List (String × ℕ) → Queue → Queue → List Queue → Type 0
IsLeast served c q qs =
    (turn served c.owner ≤ turn served q.owner)
    × All (λ p. turn served c.owner ≤ turn served p.owner) qs

attach-none : (j : Job) (s : Store) → attach j s ≡ none → idle_child s ≡ none
unfolding attach
attach-none j s h = ground arith

module _ (p : String → String → Option Value → Bool) where
  attach-of_send :
      (j : Job) (s : Store) (x : Send) (t : Store)
      → attach j s ≡ some (x, t)
      → of_send p x ≡ of_job p j
  unfolding attach attach_to
  attach-of_send j s x t h = elim (Option-cases (idle_child s)) [
    | inl none_idle ↦ absurd (ground arith)
    | inr (w, free) ↦ ground (arith, free)
  ]

abbrev any_message : String → String → Option Value → Bool
any_message i task input = true

dispatch_loop-count :
    (p : String → String → Option Value → Bool) (fuel : ℕ) (qs : List Queue) (s : Store)
    → counted any_message qs ≤ fuel
    → AreOneEach qs
    → (count (of_send p) (dispatch_loop fuel qs s).0 ≤ counted p qs)
      × ((count (of_send p) (dispatch_loop fuel qs s).0 ≡ counted p qs)
          ⊎ (idle_child (dispatch_loop fuel qs s).1 ≡ none))
unfolding dispatch_loop
dispatch_loop-count p zero [] s h ones = (omega arith, inl refl)
dispatch_loop-count p zero (q ∷ qs) s h ones = absurd (ground (arith, h))
dispatch_loop-count p (suc fuel) [] s h ones = (omega arith, inl refl)
dispatch_loop-count p (suc fuel) (q ∷ qs) s h ones =
    let chosen = least s.served q qs in
    let left = pop_queue chosen.owner (q ∷ qs) in
    let at = least-IsIn s.served q qs in
    let popped : count (of_job p) (chosen.first ∷ []) + counted p left ≡ counted p (q ∷ qs) =
      counted-pop_queue p chosen (q ∷ qs) at ones in
    let shorter : 1 + counted any_message left ≡ counted any_message (q ∷ qs) =
      counted-pop_queue any_message chosen (q ∷ qs) at ones in
    elim (Option-cases (attach chosen.first s)) [
      | inl none_idle ↦
          rw (none_idle, dispatch_loop) (omega arith, inr (attach-none chosen.first s none_idle))
      | inr ((x, t), given) ↦
          let same : of_send p x ≡ of_job p chosen.first =
            attach-of_send p chosen.first s x t given in
          let (few, all) =
            dispatch_loop-count p fuel left (serve chosen.owner t) (omega (arith, shorter, h))
              (pop_queue-AreOneEach chosen.owner (q ∷ qs) ones) in
          rw (given, dispatch_loop)
            (
              ground (arith, few, popped, same),
              elim all [
                | inl equal ↦ inl (ground (arith, equal, popped, same))
                | inr stopped ↦ inr stopped
              ],
            )
    ]

count-any : (js : List Job) → count (of_job any_message) js ≡ length js
count-any [] = refl
count-any (j ∷ js) = ground (arith, count-any js)

-- With jobs waiting, dispatch sends no job that does not wait, and none more often than it waits; and it sends each
-- of them as often as it waits, or leaves no child idle. Two jobs are told apart by any test of what is
-- sent: the id, the task and the input. The fuel is enough.
pub dispatch_complete :
    (waiting : List Job) (s : Store) (p : String → String → Option Value → Bool)
    → (count (of_send p) (dispatch waiting s).0 ≤ count (of_job p) waiting)
      × ((count (of_send p) (dispatch waiting s).0 ≡ count (of_job p) waiting)
          ⊎ (idle_child (dispatch waiting s).1 ≡ none))
unfolding dispatch
dispatch_complete waiting s p =
    let qs = enqueue_all waiting [] in
    let total : counted any_message qs ≡ length waiting =
      counted-enqueue_all any_message waiting [] ∙ add-zero _ ∙ count-any waiting in
    let all : counted p qs ≡ count (of_job p) waiting =
      counted-enqueue_all p waiting [] ∙ add-zero (count (of_job p) waiting) in
    let (few, done) =
      dispatch_loop-count p (length waiting) qs s (omega (arith, total))
        (enqueue_all-AreOneEach waiting [] tt) in
    (
      omega (arith, few, all),
      elim done [ inl equal ↦ inl (equal ∙ all) | inr stopped ↦ inr stopped ],
    )

find_first-true : (p : ℕ → Bool) (ws : List ℕ) (w : ℕ) → find_first p ws ≡ some w → p w ≡ true
find_first-true p [] w h = absurd (ground arith)
find_first-true p (v ∷ vs) w h = ground (arith, find_first-true p vs w)

-- The child that a job is given to was idle, and is then busy with that job alone.
pub attach-idle :
    (j : Job) (s : Store) (x : Send) (t : Store)
    → attach j s ≡ some (x, t)
    → (is_idle (s.workers x.child) ≡ true)
      × ((t.workers x.child).job_id ≡ some j.id)
      × (is_idle (t.workers x.child) ≡ false)
      × (x.id ≡ j.id)
unfolding attach attach_to is_idle set_worker
attach-idle j s x t h = elim (Option-cases (idle_child s)) [
  | inl none_idle ↦ absurd (ground arith)
  | inr (w, free) ↦
      let idle : is_idle (s.workers w) ≡ true =
        find_first-true (λ w. is_idle (s.workers w)) s.pool w free in
      ground (arith, idle, nat_beq_iff w w)
]
