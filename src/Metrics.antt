-- ===== src/Metrics.antt =====
-- worker/ai_bridge/metrics.py. Times are whole milliseconds.
pub mod Cumulative
use php_python_ai_bridge.Base.{ℕ, ◌+◌, List, [], ◌∷◌, leb, if◌then◌else◌}

-- `BUCKETS`, the upper bounds, in milliseconds.
abbrev pub buckets : List ℕ
buckets = 50 ∷ 100 ∷ 250 ∷ 500 ∷ 1000 ∷ 2500 ∷ 5000 ∷ 10000 ∷ 30000 ∷ 60000 ∷ 300000 ∷ []

-- One count for each bound and a last one for +Inf.
pub record Histogram : Type 0 where
  pub counts : List ℕ
  pub total : ℕ
  pub count : ℕ

zeros : List ℕ → List ℕ
zeros [] = 0 ∷ []
zeros (b ∷ bs) = 0 ∷ zeros bs

unfoldable pub new_histogram : Histogram
unfolding zeros
new_histogram = record { counts = zeros buckets; total = 0; count = 0 }

-- `counts[bisect_left(bounds, ms)] += 1`.
pub bump_bucket : List ℕ → ℕ → List ℕ → List ℕ
bump_bucket bounds ms [] = []
bump_bucket [] ms (c ∷ cs) = (c + 1) ∷ cs
bump_bucket (b ∷ bs) ms (c ∷ cs) = if leb ms b then (c + 1) ∷ cs else c ∷ bump_bucket bs ms cs

pub observe : Histogram → ℕ → Histogram
unfolding bump_bucket
observe h ms = record {
  counts = bump_bucket buckets ms h.counts;
  total = h.total + ms;
  count = h.count + 1;
}

-- The running totals that `histogram` writes, one for each bound and one for +Inf.
pub cumulative : ℕ → List ℕ → List ℕ
cumulative total [] = []
cumulative total (c ∷ cs) = (total + c) ∷ cumulative (total + c) cs
