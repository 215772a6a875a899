-- ===== src/Par/Schedule/Once.antt =====
-- Every job of scripts/par.py runs once: the stages that it goes through hold each index once.
use air2lean.Base.{
  ℕ, ◌+◌, ◌<◌, ◌≡◌, refl, ap, ◌∙◌, Option, some, true, false, List, [], ◌∷◌, ltb, ◌==◌, as_count,
  if-both, ==-refl, length, length-append, sum_of-append, arith,
}
use air2lean.Par.Schedule.{
  Config, State, lookup, has_room, next, take, launched, refused, start, written, finish, run,
  initial,
}
use air2lean.Par.Schedule.Counts.{occurs, stages, sum_of-remove, sum_of-drop_entry}
use air2lean.Par.Schedule.Steps.{run-keeps}
use air2lean.Par.Schedule.Room.{next-eq-some}

-- Each index below `jobs` is in one stage, once: pending, running, finished, or written, which are
-- those below `head`. There is a status for each written job.
abbrev pub EachOnce : Config → State → Type 0
EachOnce c s = ((i : ℕ) → stages i s ≡ as_count (ltb i c.jobs)) × (length s.statuses ≡ s.head)

launched-EachOnce :
    (c : Config) (s : State) (i : ℕ)
    → 0 < occurs i s.pending
    → EachOnce c s
    → EachOnce c (launched c i (take c i s))
unfolding launched take
launched-EachOnce c s i waits (once, done) = (
  λ k. omega (
    arith,
    once k,
    sum_of-remove (λ j. as_count (j == k)) i s.pending waits,
    sum_of-append (λ j. as_count (j == k)) s.running (i ∷ []),
  ),
  done,
)

refused-EachOnce :
    (c : Config) (s : State) (i : ℕ)
    → 0 < occurs i s.pending
    → EachOnce c s
    → EachOnce c (refused c i (take c i s))
unfolding refused take
refused-EachOnce c s i waits (once, done) =
    (λ k. omega (arith, once k, sum_of-remove (λ j. as_count (j == k)) i s.pending waits), done)

pub start-EachOnce :
    (c : Config) (s : State) (i : ℕ)
    → has_room c s ≡ true
    → next c s ≡ some i
    → EachOnce c s
    → EachOnce c (start c i (take c i s))
unfolding start
start-EachOnce c s i room chosen once =
    (let waits = next-eq-some c s i chosen in
      if-both (EachOnce c) (c.can_start i) (λ _. launched-EachOnce c s i waits.1 once)
        (λ _. refused-EachOnce c s i waits.1 once))

-- One more index is below the next head: the head itself.
below_suc : (k h : ℕ) → as_count (ltb k (h + 1)) ≡ as_count (ltb k h) + as_count (h == k)
below_suc k h = ground arith

pub written-EachOnce :
    (c : Config) (s : State) (code : ℕ)
    → ltb s.head c.jobs ≡ true
    → lookup s.head s.finished ≡ some code
    → EachOnce c s
    → EachOnce c (written code s)
unfolding written
written-EachOnce c s code some_left found (once, done) = (
  λ k. omega (
    arith,
    once k,
    below_suc k s.head,
    sum_of-drop_entry (λ e. as_count (e.0 == k)) s.head code s.finished found,
  ),
  omega (arith, done, length-append s.statuses (code ∷ [])),
)

pub finish-EachOnce :
    (c : Config) (s : State) (i code : ℕ)
    → 0 < occurs i s.running
    → EachOnce c s
    → EachOnce c (finish c i code s)
unfolding finish
finish-EachOnce c s i code runs (once, done) =
    (λ k. omega (arith, once k, sum_of-remove (λ j. as_count (j == k)) i s.running runs), done)

-- Started with an order that is a permutation of the job indices, the run has each job in one
-- stage, once, whatever happens to the jobs, and as many statuses as written jobs.
pub run-EachOnce :
    (c : Config) (order : List ℕ) (events : List (ℕ → Option ℕ))
    → ((i : ℕ) → occurs i order ≡ as_count (ltb i c.jobs))
    → EachOnce c (run c events (initial order))
unfolding initial
run-EachOnce c order events permutation =
    run-keeps c (EachOnce c) (start-EachOnce c) (written-EachOnce c) (finish-EachOnce c) events
      (initial order) ((λ i. ground (arith, permutation i)), refl)

pub none_left : (xs : List ℕ) → ((i : ℕ) → occurs i xs ≡ 0) → xs ≡ []
none_left [] h = refl
none_left (x ∷ xs) h = absurd (ground (arith, h x, ==-refl x))

pub head-jobs :
    (c : Config) (s : State) → EachOnce c s → ltb s.head c.jobs ≡ false → s.head ≡ c.jobs
head-jobs c s (once, done) ended = ground (arith, once c.jobs)

nothing_left :
    (c : Config) (s : State)
    → EachOnce c s
    → ltb s.head c.jobs ≡ false
    → (i : ℕ) → (occurs i s.pending ≡ 0) × (occurs i s.running ≡ 0)
nothing_left c s once ended i =
    (let same_bound : s.head ≡ c.jobs = head-jobs c s once ended in
      let below : as_count (ltb i s.head) ≡ as_count (ltb i c.jobs) =
        ap (λ n. as_count (ltb i n)) same_bound in
      let at = once.0 i in (omega (arith, at, below), omega (arith, at, below)))

-- Started with an order that is a permutation of the job indices, the run has no job pending or
-- running, and one status for each job, once its head has reached the number of jobs.
pub run_complete :
    (c : Config) (order : List ℕ) (events : List (ℕ → Option ℕ))
    → ((i : ℕ) → occurs i order ≡ as_count (ltb i c.jobs))
    → ltb (run c events (initial order)).head c.jobs ≡ false
    → ((run c events (initial order)).pending ≡ [])
      × ((run c events (initial order)).running ≡ [])
      × (length (run c events (initial order)).statuses ≡ c.jobs)
run_complete c order events permutation ended =
    (let s = run c events (initial order) in
      let once = run-EachOnce c order events permutation in
      (
        none_left s.pending (λ i. (nothing_left c s once ended i).0),
        none_left s.running (λ i. (nothing_left c s once ended i).1),
        once.1 ∙ head-jobs c s once ended,
      ))
