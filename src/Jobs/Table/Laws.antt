-- ===== src/Jobs/Table/Laws.antt =====
-- `_jobs` after a job at some place of the table was replaced, taken out or added.
use php_python_ai_bridge.Base.{
  All, if_ind, ◌≡◌, inl, inr, ◌⊎◌, List, [], ◌∷◌, ◌++◌, none, some, String, arith, Bool-cases, ◌==◌,
  string_eq, string_beq_iff,
}
use php_python_ai_bridge.Jobs.Types.{Job}
use php_python_ai_bridge.Jobs.Table.{find, put}

pub find-middle :
    (i : String) (xs : List Job) (j : Job) (ys : List Job) (m : Job)
    → find i (xs ++ (j ∷ ys)) ≡ some m
    → (m ≡ j) ⊎ (find i (xs ++ ys) ≡ some m)
unfolding find
find-middle i [] j ys m h = ground (arith, string_beq_iff j.id i)
find-middle i (x ∷ xs) j ys m h = elim (Bool-cases (x.id == i)) [
  | inl same ↦ inr (ground arith)
  | inr other ↦ ground (arith, find-middle i xs j ys m)
]

pub find-replace :
    (i : String) (xs : List Job) (j j' : Job) (ys : List Job) (m : Job)
    → j'.id ≡ j.id
    → find i (xs ++ (j ∷ ys)) ≡ some m
    → (m ≡ j) × (find i (xs ++ (j' ∷ ys)) ≡ some j') ⊎ (find i (xs ++ (j' ∷ ys)) ≡ some m)
unfolding find
find-replace i [] j j' ys m same h = ground (arith, string_beq_iff j.id i, string_beq_iff j'.id i)
find-replace i (x ∷ xs) j j' ys m same h = elim (Bool-cases (x.id == i)) [
  | inl same_x ↦ inr (ground arith)
  | inr other ↦ ground (arith, find-replace i xs j j' ys m same)
]

pub find-snoc :
    (i : String) (js : List Job) (j m : Job) → find i js ≡ some m → find i (js ++ (j ∷ [])) ≡ some m
unfolding find
find-snoc i [] j m h = absurd (ground arith)
find-snoc i (x ∷ js) j m h = ground (arith, find-snoc i js j m)

pub find-last :
    (js : List Job) (j : Job) → find j.id js ≡ none → find j.id (js ++ (j ∷ [])) ≡ some j
unfolding find
find-last [] j h = ground (arith, string_beq_iff j.id j.id)
find-last (x ∷ js) j h = ground (arith, find-last js j)

pub find-put : (j : Job) (js : List Job) → find j.id (put j js) ≡ some j
unfolding find put
find-put j [] = ground (arith, string_beq_iff j.id j.id)
find-put j (k ∷ ks) = elim (Bool-cases (k.id == j.id)) [
  | inl same ↦ ground (arith, same, string_beq_iff j.id j.id)
  | inr other ↦ ground (arith, other, find-put j ks)
]

-- What holds of each job of the table and of the job that is written holds of each afterwards.
pub put-All : (P : Job → Type 0) (j : Job) (js : List Job) → P j → All P js → All P (put j js)
unfolding put
put-All P j [] p h = (p, tt)
put-All P j (k ∷ ks) p h =
    if_ind (All P) (k.id == j.id) (λ _. (p, h.1)) (λ _. (h.0, put-All P j ks p h.1))
