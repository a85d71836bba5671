-- ===== src/Samples/Starts.antt =====
-- Examples of a start over rows of an earlier run, of draining and closing a store, and of a histogram.
use php_python_ai_bridge.Base.{◌≡◌, refl, List, [], ◌∷◌, none, some, arith, length, string_eq}
use php_python_ai_bridge.Json.{null}
use php_python_ai_bridge.Jobs.Types.{Row, running, succeeded}
use php_python_ai_bridge.Jobs.Table.{find}
use php_python_ai_bridge.Jobs.Db.{recover, adopt, fail_unfinished, is_stale}
use php_python_ai_bridge.Jobs.Submit.{active_count}
use php_python_ai_bridge.Jobs.Service.{close}
use php_python_ai_bridge.Jobs.Invariants.{IsSound}
use php_python_ai_bridge.Jobs.Close.{close-active_count}
use php_python_ai_bridge.Jobs.Open.{open_store}
use php_python_ai_bridge.Jobs.Open.Laws.{row_of}
use php_python_ai_bridge.Jobs.Open.Restored.{IsStart, open_store-IsStart}
use php_python_ai_bridge.Jobs.Open.Sound.{open_store-IsSound}
use php_python_ai_bridge.Samples.{settings, new_child, at, store_1, first_store-IsSound}

-- A job that was running when the service went down, from before there were owners, and a result.
abbrev rows : List Row
rows =
    record {
      id = "r1";
      task = "embed";
      status = running;
      result = none;
      error = none;
      progress = none;
      timeout_ms = 5000;
      key = none;
      submitted_at = 900000;
      finished_at = none;
      owner = none;
    }
    ∷ record {
      id = "r2";
      task = "embed";
      status = succeeded;
      result = some null;
      error = none;
      progress = none;
      timeout_ms = 5000;
      key = some "k";
      submitted_at = 990000;
      finished_at = some 995000;
      owner = some "ann";
    }
    ∷ []

recover_test : length (recover 1000000 60000 rows) ≡ 2
unfolding recover adopt fail_unfinished is_stale
recover_test = refl

open_store-IsStart_example :
    IsStart 0 1000000 60000
      (row_of "r2" rows)
      (find "r2" (open_store (at 0 "x") settings (λ w. new_child) rows).jobs)
open_store-IsStart_example =
    open_store-IsStart (at 0 "x") settings (λ w. new_child) rows "r2" (omega arith)

open_store-IsSound_example : IsSound (open_store (at 0 "x") settings (λ w. new_child) rows).book
open_store-IsSound_example = open_store-IsSound (at 0 "x") settings (λ w. new_child) rows

close-active_count_example :
    (active_count (close (at 10 "x") store_1).1.jobs ≡ 0)
    × ((close (at 10 "x") store_1).1.pool ≡ [])
    × ((close (at 10 "x") store_1).0 ≡ active_count store_1.jobs)
close-active_count_example = close-active_count (at 10 "x") store_1 first_store-IsSound
