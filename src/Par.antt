-- ===== src/Par.antt =====
-- scripts/par.py: bounded parallel jobs. The schedule of the jobs is the child Schedule; here are the
-- number of workers, the status of an ended process and the exit status of the program.
pub mod Schedule
pub mod Exit
use air2lean.Base.{
  ℕ, ◌+◌, ◌/◌, ◌-◌, Option, none, some, Bool, true, false, List, [], ◌∷◌, ◌==◌, if◌then◌else◌, leb,
}
use air2lean.Base.Int.{ℤ, pos, negsuc}

abbrev pub min : ℕ → ℕ → ℕ
min a b = if leb a b then a else b

abbrev pub max : ℕ → ℕ → ℕ
max a b = if leb a b then b else a

-- `if mem_mib:`, with the memory budget of the host
unfoldable pub bounded_by_memory : ℕ → Option ℕ → ℕ → ℕ
bounded_by_memory budget none jobs = jobs
bounded_by_memory budget (some m) jobs = if m == 0 then jobs else min jobs (max 1 (budget / m))

-- The number of jobs to run at once. `asked` is --jobs, or what the environment or the host gives.
unfoldable pub workers : ℕ → ℕ → Option ℕ → Option ℕ → ℕ
unfolding bounded_by_memory
workers budget asked mem count =
    let jobs = bounded_by_memory budget mem asked in
    max 1 (elim count [ none ↦ jobs | some n ↦ min jobs (max 1 n) ])

-- `_status`: a process that a signal ended has the negative code of the signal.
unfoldable pub status_of : ℤ → ℕ
status_of (pos n) = n
status_of (negsuc n) = 128 + (n + 1)

-- The first status that is not 0.
unfoldable pub first_failed : List ℕ → ℕ
first_failed [] = 0
first_failed (c ∷ cs) = if c == 0 then first_failed cs else c

-- The end of `main`: all jobs ran, or a signal stopped them.
unfoldable pub exit_status : Option ℕ → List ℕ → ℕ
unfolding first_failed
exit_status (some signal) statuses = 128 + signal
exit_status none statuses = first_failed statuses
