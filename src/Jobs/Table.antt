-- ===== src/Jobs/Table.antt =====
-- The job table `_jobs`, keyed by the id that each job carries, in the order of insertion.
pub mod Laws
use php_python_ai_bridge.Base.{
  ℕ, ◌+◌, ◌≡◌, refl, Bool, true, false, List, [], ◌∷◌, ◌++◌, Option, none, some, String, arith, ap,
  Bool-cases, inl, inr, ◌==◌, string_eq, string_beq_iff, if◌then◌else◌, count,
}
use php_python_ai_bridge.Jobs.Types.{Job}

-- `_jobs.get(i)`.
unfoldable pub find : String → List Job → Option Job
find i [] = none
find i (j ∷ js) = if j.id == i then some j else find i js

-- `_jobs[j.id] = j`: in place where the id is known, else at the end.
unfoldable pub put : Job → List Job → List Job
put j [] = j ∷ []
put j (k ∷ ks) = if k.id == j.id then j ∷ ks else k ∷ put j ks

pub find-id : (i : String) (js : List Job) (j : Job) → find i js ≡ some j → j.id ≡ i
unfolding find
find-id i [] j h = absurd (ground arith)
find-id i (k ∷ ks) j h = ground (arith, string_beq_iff k.id i, find-id i ks j)

-- A known job stands at one place, and writing it changes that place alone.
pub put-split :
    (i : String) (js : List Job) {j : Job}
    → find i js ≡ some j
    → (j' : Job) → j'.id ≡ j.id
    → (xs : List Job) × (ys : List Job) × (js ≡ xs ++ (j ∷ ys)) × (put j' js ≡ xs ++ (j' ∷ ys))
unfolding find put
put-split i [] h j' e = absurd (ground arith)
put-split i (k ∷ ks) {j} h j' e = elim (Bool-cases (k.id == i)) [
  | inl same ↦
      let k-is-j : k ≡ j = ground arith in
      ([], ks, ap (λ x. x ∷ ks) k-is-j, ground (arith, string_beq_iff k.id j'.id))
  | inr other ↦
      let rest : find i ks ≡ some j = ground arith in
      let (xs, ys, p, q) = put-split i ks rest j' e in
      (
        k ∷ xs,
        ys,
        ap (λ l. k ∷ l) p,
        ground (arith, q, string_beq_iff k.id j'.id, string_beq_iff k.id i, find-id i ks j rest),
      )
]
