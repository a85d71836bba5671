-- ===== src/Tasks/Rerank.antt =====
-- The rerank task of `execute`: progress reports and the ranking. Scores are any type with a total
-- order, such as the counts of shared words of the lexical backend or the finite floats of a model.
pub mod Laws
use php_python_ai_bridge.Base.{
  ℕ, zero, suc, ◌+◌, ◌-◌, ◌*◌, ◌/◌, max, min, ◌≡◌, Bool, true, false, not, ◌&&◌, ◌||◌, List, [],
  ◌∷◌, ltb, leb, ◌==◌, nat_eq, if◌then◌else◌, take, length, Option, none, some,
}
use php_python_ai_bridge.Base.Sort.{sort}

-- `step = -(-total // 64)`.
pub report_step : ℕ → ℕ
report_step total = (total + 63) / 64

-- The reports of a run that completes the given counts in turn: which of them reach the parent.
-- `last` is one step above the source's, which begins at `-step`.
pub reports : ℕ → ℕ → ℕ → List ℕ → List ℕ
reports step total last [] = []
reports step total last (c ∷ cs) =
    let sent = c ∷ reports step total (c + step) cs in
    let held = reports step total last cs in
    if c == total || ltb (last / step) (c / step + 1) then sent else held

-- The counts that the lexical backend reports: 0, then after each document.
pub counts_from : ℕ → ℕ → List ℕ
counts_from zero c = c ∷ []
counts_from (suc n) c = c ∷ counts_from n (c + 1)

pub rerank_reports : ℕ → List ℕ
rerank_reports total = reports (report_step total) total 0 (counts_from total 0)

pub record Ranking {ℓ} (S : Type ℓ) : Type ℓ where
  pub index : ℕ
  pub score : S

-- `enumerate(scores)`.
unfoldable pub rankings_from {ℓ} : {S : Type ℓ} → ℕ → List S → List (Ranking S)
rankings_from i [] = []
rankings_from i (x ∷ xs) = record { index = i; score = x } ∷ rankings_from (i + 1) xs

module _ {ℓ} {S : Type ℓ} (le : S → S → Bool) where
  -- The order of the key `(-score, index)`.
  unfoldable pub ranks_before : Ranking S → Ranking S → Bool
  ranks_before a b =
      if le a.score b.score then if le b.score a.score then leb a.index b.index else false else true

  -- `rankings.sort(...)` and `rankings[:top_k]`.
  unfoldable pub rank : List S → ℕ → List (Ranking S)
  rank scores top_k = take top_k (sort ranks_before (rankings_from 0 scores))
