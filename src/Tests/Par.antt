-- ===== src/Tests/Par.antt =====
-- The schedule of scripts/par.py at concrete runs: three jobs, two workers, a memory budget.
use air2lean.Base.{
  ◌≡◌, refl, ℕ, Option, some, true, false, List, [], ◌∷◌, ◌==◌, if◌then◌else◌, length, ltb,
  as_count,
}
use native.Mathlib.Omega.{arith}
use air2lean.Par.Schedule.{Config, run, initial, fill}
use air2lean.Par.Schedule.Counts.{occurs}
use air2lean.Par.Schedule.Room.{KeepsRoom, run-KeepsRoom}
use air2lean.Par.Schedule.Once.{EachOnce, run-EachOnce, run_complete}
use air2lean.Par.Schedule.Passes.{AllEnd}
use air2lean.Par.Schedule.Ends.{run-ends}
use air2lean.Par.Schedule.Progress.{fill-busy}

abbrev memory : ℕ → ℕ
memory i = if i == 0 then 900 else 300

abbrev three_jobs : Config
three_jobs = record {
  jobs = 3;
  mem_mib = memory;
  can_start = λ i. true;
  max_workers = 2;
  mem_budget = some 700;
}

abbrev order : List ℕ
order = 2 ∷ 0 ∷ 1 ∷ []

abbrev all_end : ℕ → Option ℕ
all_end i = some i

abbrev events : List (ℕ → Option ℕ)
events = all_end ∷ all_end ∷ all_end ∷ all_end ∷ []

order_permutes : (i : ℕ) → occurs i order ≡ as_count (ltb i 3)
order_permutes i = ground arith

run-KeepsRoom_example : KeepsRoom three_jobs (run three_jobs events (initial order))
run-KeepsRoom_example = run-KeepsRoom three_jobs order events

run-EachOnce_example : EachOnce three_jobs (run three_jobs events (initial order))
run-EachOnce_example = run-EachOnce three_jobs order events order_permutes

run-complete_example :
    ((run three_jobs events (initial order)).pending ≡ [])
    × ((run three_jobs events (initial order)).running ≡ [])
    × (length (run three_jobs events (initial order)).statuses ≡ 3)
unfolding run initial
run-complete_example = run_complete three_jobs order events order_permutes refl

all_end-AllEnd : AllEnd all_end
all_end-AllEnd i = (i, refl)

run-ends_example : (run three_jobs events (initial order)).head ≡ 3
run-ends_example =
    run-ends three_jobs order events order_permutes (omega arith)
      (all_end-AllEnd, (all_end-AllEnd, (all_end-AllEnd, (all_end-AllEnd, tt)))) (omega arith)

-- No process can be started, so that each pending job is closed at once.
abbrev without_processes : Config
without_processes = record three_jobs { can_start = λ i. false }

fill-busy_example : (fill without_processes 3 (initial order)).pending ≡ []
unfolding fill initial
fill-busy_example = fill-busy without_processes (initial order) (omega arith) refl
