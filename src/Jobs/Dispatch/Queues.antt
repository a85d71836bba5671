-- ===== src/Jobs/Dispatch/Queues.antt =====
-- The queues of `_dispatch`: one to an owner, and what becomes of their jobs.
use php_python_ai_bridge.Base.{
  ℕ, ◌+◌, ◌≡◌, refl, sym, Bool, true, false, inl, inr, ◌⊎◌, List, [], ◌∷◌, ◌++◌, String, arith, ltb,
  count, if_ind, Option, Bool-cases, subst, ◌==◌, string_eq, string_beq_iff, nat_eq, any,
}
use php_python_ai_bridge.Json.{Value}
use php_python_ai_bridge.Jobs.Types.{Job}
use php_python_ai_bridge.Jobs.Dispatch.{
  Send, Queue, enqueue, enqueue_all, turn, least, shorten, pop_queue,
}

abbrev has_owner : String → List Queue → Bool
has_owner o qs = any (λ q. q.owner == o) qs

-- No two queues have one owner.
abbrev pub AreOneEach : List Queue → Type 0
AreOneEach [] = Unit
AreOneEach (q ∷ qs) = (has_owner q.owner qs ≡ false) × AreOneEach qs

has_owner-enqueue :
    (o : String) (j : Job) (qs : List Queue)
    → has_owner o qs ≡ false
    → (j.owner == o) ≡ false
    → has_owner o (enqueue j qs) ≡ false
unfolding enqueue
has_owner-enqueue o j [] h k = ground (arith, k)
has_owner-enqueue o j (q ∷ qs) h k = ground (arith, h, k, has_owner-enqueue o j qs)

enqueue-AreOneEach : (j : Job) (qs : List Queue) → AreOneEach qs → AreOneEach (enqueue j qs)
unfolding enqueue
enqueue-AreOneEach j [] h = (refl, tt)
enqueue-AreOneEach j (q ∷ qs) (one, ones) = elim (Bool-cases (q.owner == j.owner)) [
  | inl same ↦ rw (same, enqueue) (one, ones)
  | inr other ↦
      rw (other, enqueue)
        (
          has_owner-enqueue q.owner j qs one (
              ground
                (arith, other, string_beq_iff q.owner j.owner, string_beq_iff j.owner q.owner)),
          enqueue-AreOneEach j qs ones,
        )
]

pub enqueue_all-AreOneEach :
    (js : List Job) (qs : List Queue) → AreOneEach qs → AreOneEach (enqueue_all js qs)
unfolding enqueue_all
enqueue_all-AreOneEach [] qs h = h
enqueue_all-AreOneEach (j ∷ js) qs h =
    enqueue_all-AreOneEach js (enqueue j qs) (enqueue-AreOneEach j qs h)

has_owner-shorten :
    (o : String) (q : Queue) (qs : List Queue)
    → (q.owner == o) ≡ false
    → has_owner o qs ≡ false
    → has_owner o (shorten q ++ qs) ≡ false
unfolding shorten
has_owner-shorten o q qs h k = ground (arith, h, k)

has_owner-pop_queue :
    (o p : String) (qs : List Queue) → has_owner o qs ≡ false → has_owner o (pop_queue p qs) ≡ false
unfolding pop_queue
has_owner-pop_queue o p [] h = refl
has_owner-pop_queue o p (q ∷ qs) h =
    ground (arith, h, has_owner-pop_queue o p qs, has_owner-shorten o q qs)

shorten-AreOneEach :
    (q : Queue) (qs : List Queue)
    → has_owner q.owner qs ≡ false
    → AreOneEach qs
    → AreOneEach (shorten q ++ qs)
unfolding shorten
shorten-AreOneEach q qs one ones = behind q.rest refl
  where
    behind : (js : List Job) → q.rest ≡ js → AreOneEach (shorten q ++ qs)
    behind [] is_js = rw (is_js, shorten) ones
    behind (j ∷ js) is_js = rw (is_js, shorten) (one, ones)

pub pop_queue-AreOneEach :
    (o : String) (qs : List Queue) → AreOneEach qs → AreOneEach (pop_queue o qs)
unfolding pop_queue
pop_queue-AreOneEach o [] h = tt
pop_queue-AreOneEach o (q ∷ qs) (one, ones) =
    if_ind AreOneEach (q.owner == o) (λ _. shorten-AreOneEach q qs one ones)
      (λ _. (has_owner-pop_queue q.owner o qs one, pop_queue-AreOneEach o qs ones))

abbrev IsIn : Queue → List Queue → Type 0
IsIn c [] = ⊥
IsIn c (q ∷ qs) = (c ≡ q) ⊎ IsIn c qs

IsIn-has_owner : (c : Queue) (qs : List Queue) → IsIn c qs → has_owner c.owner qs ≡ true
IsIn-has_owner c [] h = absurd h
IsIn-has_owner c (q ∷ qs) (inl same) =
    subst (λ x. has_owner x.owner (q ∷ qs) ≡ true) (sym same)
      (ground (arith, string_beq_iff q.owner q.owner))
IsIn-has_owner c (q ∷ qs) (inr later) = ground (arith, IsIn-has_owner c qs later)

pub least-IsIn :
    (served : List (String × ℕ)) (q : Queue) (qs : List Queue) → IsIn (least served q qs) (q ∷ qs)
unfolding least
least-IsIn served q [] = inl refl
least-IsIn served q (p ∷ ps) =
    if_ind (λ x. IsIn (least served x ps) (q ∷ p ∷ ps))
      (ltb (turn served p.owner) (turn served q.owner)) (λ _. inr (least-IsIn served p ps))
      (λ _. elim (least-IsIn served q ps) [ inl same ↦ inl same | inr later ↦ inr (inr later) ])

-- What is sent of a job satisfies a test.
module _ (p : String → String → Option Value → Bool) where
  abbrev pub of_job : Job → Bool
  of_job j = p j.id j.task j.input

  abbrev pub of_send : Send → Bool
  of_send x = p x.id x.task x.input

  -- The jobs in the queues that satisfy it.
  abbrev pub counted : List Queue → ℕ
  counted [] = 0
  counted (q ∷ qs) = count of_job (q.first ∷ q.rest) + counted qs

  count-snoc : (j : Job) (js : List Job) → count of_job (js ++ (j ∷ [])) ≡ count of_job (j ∷ js)
  count-snoc j [] = refl
  count-snoc j (k ∷ ks) = ground (arith, count-snoc j ks)

  counted-enqueue :
      (j : Job) (qs : List Queue) → counted (enqueue j qs) ≡ count of_job (j ∷ []) + counted qs
  unfolding enqueue
  counted-enqueue j [] = omega arith
  counted-enqueue j (q ∷ qs) = ground (arith, counted-enqueue j qs, count-snoc j q.rest)

  pub counted-enqueue_all :
      (js : List Job) (qs : List Queue) → counted (enqueue_all js qs) ≡ count of_job js + counted qs
  unfolding enqueue_all
  counted-enqueue_all [] qs = omega arith
  counted-enqueue_all (j ∷ js) qs =
      ground (arith, counted-enqueue_all js (enqueue j qs), counted-enqueue j qs)

  counted-shorten :
      (q : Queue) (qs : List Queue)
      → count of_job (q.first ∷ []) + counted (shorten q ++ qs) ≡ counted (q ∷ qs)
  unfolding shorten
  counted-shorten q qs = ground arith

  pub counted-pop_queue :
      (c : Queue) (qs : List Queue)
      → IsIn c qs
      → AreOneEach qs
      → count of_job (c.first ∷ []) + counted (pop_queue c.owner qs) ≡ counted qs
  unfolding pop_queue
  counted-pop_queue c [] h ones = absurd h
  counted-pop_queue c (q ∷ qs) (inl same) ones =
      subst
        (λ x. count of_job (x.first ∷ []) + counted (pop_queue x.owner (q ∷ qs)) ≡ counted (q ∷ qs))
        (sym same) (ground (arith, string_beq_iff q.owner q.owner, counted-shorten q qs))
  counted-pop_queue c (q ∷ qs) (inr later) (one, ones) = ground (
    arith,
    one,
    IsIn-has_owner c qs later,
    string_beq_iff q.owner c.owner,
    counted-pop_queue c qs later ones,
  )
