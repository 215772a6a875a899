-- ===== src/Par/Schedule.antt =====
-- The schedule of `run` in scripts/par.py: which job starts next, the memory that the running jobs
-- request, and the jobs whose output is written in order. A round is one pass of the loop: the
-- streams that were read to their end, and the exit codes of their processes, come in as a function.
-- Output, sampling and signals are left out.
pub mod Counts
pub mod Steps
pub mod Room
pub mod Once
pub mod Progress
pub mod Passes
pub mod Ends
use air2lean.Base.{
  ℕ, zero, suc, ◌+◌, ◌-◌, Option, none, some, Bool, true, false, ◌&&◌, ◌||◌, not, List, [], ◌∷◌,
  ◌++◌, ◌==◌, ltb, leb, if◌then◌else◌, length, is_empty, sum_of, any,
}

-- The jobs by index: how many, the memory each requests, whether its process can be started, the
-- bound on running jobs, and the memory budget.
pub record Config : Type 0 where
  pub jobs : ℕ
  pub mem_mib : ℕ → ℕ
  pub can_start : ℕ → Bool
  pub max_workers : ℕ
  pub mem_budget : Option ℕ

-- The variables of `run`. `statuses` holds those before `head`, in order.
pub record State : Type 0 where
  pub pending : List ℕ
  pub running : List ℕ
  pub finished : List (ℕ × ℕ)
  pub reserved : ℕ
  pub bypassed : ℕ
  pub head : ℕ
  pub statuses : List ℕ

-- `xs.remove(x)`: the first occurrence
unfoldable pub remove : ℕ → List ℕ → List ℕ
remove x [] = []
remove x (y ∷ ys) = if y == x then ys else y ∷ remove x ys

-- A dict of statuses by job.
unfoldable pub lookup : ℕ → List (ℕ × ℕ) → Option ℕ
lookup i [] = none
lookup i ((j, c) ∷ xs) = if j == i then some c else lookup i xs

unfoldable pub drop_entry : ℕ → List (ℕ × ℕ) → List (ℕ × ℕ)
drop_entry i [] = []
drop_entry i ((j, c) ∷ xs) = if j == i then xs else (j, c) ∷ drop_entry i xs

unfoldable pub first_of : List ℕ → List ℕ
first_of [] = []
first_of (i ∷ is) = i ∷ []

unfoldable pub is_first : ℕ → List ℕ → Bool
is_first i [] = false
is_first i (j ∷ js) = j == i

-- The job at the head is written.
unfoldable pub written : ℕ → State → State
unfolding drop_entry
written code s = record s {
  finished = drop_entry s.head s.finished;
  head = s.head + 1;
  statuses = s.statuses ++ (code ∷ []);
}

module _ (c : Config) where
  -- Whether the requests of the running jobs and the job's own fit in the budget.
  unfoldable pub fits : State → ℕ → Bool
  fits s i = elim c.mem_budget [
    | none ↦ true
    | some b ↦ is_empty s.running || leb (s.reserved + c.mem_mib i) b
  ]

  unfoldable pub first_fit : State → List ℕ → Option ℕ
  unfolding fits
  first_fit s [] = none
  first_fit s (i ∷ is) = if fits s i then some i else first_fit s is

  -- `fits[0]`; after `max_workers` jobs have passed the first one, only it is considered.
  unfoldable pub next : State → Option ℕ
  unfolding first_fit first_of
  next s = first_fit s (if ltb s.bypassed c.max_workers then s.pending else first_of s.pending)

  -- `start`: a process runs and its request is reserved, or it cannot be started.
  unfoldable pub launched : ℕ → State → State
  launched i s = record s { running = s.running ++ (i ∷ []); reserved = s.reserved + c.mem_mib i }

  unfoldable pub refused : ℕ → State → State
  refused i s = record s { finished = (i, 127) ∷ s.finished }

  unfoldable pub start : ℕ → State → State
  unfolding launched refused
  start i s = if c.can_start i then launched i s else refused i s

  -- A job leaves the pending ones, and counts as a bypass unless it is the first.
  unfoldable pub take : ℕ → State → State
  unfolding remove is_first
  take i s = record s {
    pending = remove i s.pending;
    bypassed = if is_first i s.pending then 0 else s.bypassed + 1;
  }

  abbrev pub has_room : State → Bool
  has_room s = not (is_empty s.pending) && ltb (length s.running) c.max_workers

  -- The loop that starts jobs; each turn takes one that is pending.
  unfoldable pub fill : ℕ → State → State
  unfolding next start take
  fill zero s = s
  fill (suc fuel) s = elim (has_room s) [
    | false ↦ s
    | true ↦ elim (next s) [ none ↦ s | some i ↦ fill fuel (start i (take i s)) ]
  ]

  -- `advance`: the finished jobs at the head; each turn takes one that has finished.
  unfoldable pub advance : ℕ → State → State
  unfolding lookup written
  advance zero s = s
  advance (suc fuel) s = elim (ltb s.head c.jobs) [
    | false ↦ s
    | true ↦ elim (lookup s.head s.finished) [
      | none ↦ s
      | some code ↦ advance fuel (written code s)
    ]
  ]

  -- A job whose streams have ended.
  unfoldable pub finish : ℕ → ℕ → State → State
  unfolding remove
  finish i code s = record s {
    running = remove i s.running;
    finished = (i, code) ∷ s.finished;
    reserved = s.reserved - c.mem_mib i;
  }

  -- The running jobs, as they were listed, that have ended.
  unfoldable pub finish_all : (ℕ → Option ℕ) → List ℕ → State → State
  unfolding finish
  finish_all ended [] s = s
  finish_all ended (i ∷ is) s =
      finish_all ended is (elim (ended i) [ none ↦ s | some code ↦ finish i code s ])

  -- One pass of the loop.
  unfoldable pub round : (ℕ → Option ℕ) → State → State
  unfolding fill advance finish_all
  round ended s =
      let filled = fill (length s.pending) s in
      let t = advance (length filled.finished) filled in finish_all ended t.running t

  -- The loop, for as long as events are given.
  unfoldable pub run : List (ℕ → Option ℕ) → State → State
  unfolding round
  run [] s = s
  run (ended ∷ more) s = elim (ltb s.head c.jobs) [ false ↦ s | true ↦ run more (round ended s) ]

-- Before the loop: all jobs are pending, in the given order.
unfoldable pub initial : List ℕ → State
initial order = record {
  pending = order;
  running = [];
  finished = [];
  reserved = 0;
  bypassed = 0;
  head = 0;
  statuses = [];
}
